-- ===== src/Datasets/Constraints.antt =====
-- dataset_constraints.py: the checks of the observations that a dataset resolves to.
use efloud.Prelude.{
  ℕ, ◌-◌, String, Bool, true, false, List, [], ◌∷◌, ◌++◌, Option, none, some, not, map, ◌&&◌,
}
use efloud.Prelude.{
  if◌then◌else◌, ◌==◌, string_eq, nat_eq, pair_eq, all, any, filter, length, unique, leb,
}
use efloud.Prelude.Sort.{sort, text_pair_leb}
use efloud.Prelude.Text.{str_leb}
use efloud.Errors.{Result, ok, raise, Fault}
use efloud.Json.{Json, JsonObject, null, bool, int, str, arr, end, field, array, string_array}
use efloud.Models.{ArtifactObservation, SourceSnapshot, ValidationResult, passed, failed, error}
use efloud.Payloads.{validation_to_dict}
use efloud.Datasets.Snapshots.{DatasetRepository, concat_map, snapshot_observations}
use efloud.Datasets.Selectors.{or_null_int}

-- `DatasetConstraints`, constructed with a finite skew.
pub record DatasetConstraints : Type 0 where
  pub same_run : Bool
  pub max_observation_skew : Option ℕ
  pub complete_snapshots : Bool
  pub validations : List (String × String)

-- `sorted(set(self.validations))`
abbrev pub required_validations : DatasetConstraints → List (String × String)
required_validations c = sort text_pair_leb (unique c.validations)

abbrev pub pairs_json : List (String × String) → List Json
pairs_json [] = []
pairs_json ((a, b) ∷ ps) = string_array (a ∷ b ∷ []) ∷ pairs_json ps

-- `DatasetConstraints.to_dict`
unfoldable pub constraints_to_dict : DatasetConstraints → JsonObject
constraints_to_dict c = field "same_run" (bool c.same_run) (
    field "max_observation_skew" (or_null_int c.max_observation_skew) (
      field "complete_snapshots" (bool c.complete_snapshots)
        (field "validations" (arr (array (pairs_json (required_validations c)))) end)))

-- One result of `check`: its value under "passed", and the whole of it.
pub record ConstraintResult : Type 0 where
  pub passed : Bool
  pub payload : JsonObject

abbrev pub greatest : ℕ → List ℕ → ℕ
greatest n [] = n
greatest n (m ∷ ms) = greatest (if leb n m then m else n) ms

abbrev pub least : ℕ → List ℕ → ℕ
least n [] = n
least n (m ∷ ms) = least (if leb n m then n else m) ms

-- `max(times) - min(times) if times else 0.0`
unfoldable pub observation_skew : List ArtifactObservation → ℕ
observation_skew [] = 0
observation_skew (o ∷ os) =
    let times = map (λ x. x.observed_at) os in
    greatest o.observed_at times - least o.observed_at times

abbrev pub is_passed : Option ValidationResult → Bool
is_passed none = false
is_passed (some r) = elim r.status [ passed ↦ true | failed ↦ false | error ↦ false ]

abbrev pub evidence_of : Option ValidationResult → Json
evidence_of none = null
evidence_of (some r) = validation_to_dict r

abbrev pub is_ok {κ} : {B : Type κ} → (B → Bool) → Result B → Bool
is_ok p (ok x) = p x
is_ok p (raise fault) = false

abbrev pub snapshot_ids : List SourceSnapshot → List String
snapshot_ids ss = map (λ s. s.snapshot_id) ss

abbrev pub same_run_result : List ArtifactObservation → ConstraintResult
same_run_result os =
    let same = leb (length (unique (map (λ o. o.run_id) os))) 1 in
    record {
      passed = same;
      payload = field "constraint" (str "same-run") (field "passed" (bool same) end);
    }

abbrev pub same_run_check : DatasetConstraints → List ArtifactObservation → List ConstraintResult
same_run_check c os = if c.same_run then same_run_result os ∷ [] else []

-- A skew is never negative.
abbrev pub skew_result : ℕ → List ArtifactObservation → ConstraintResult
skew_result most os =
    let skew = observation_skew os in
    record {
      passed = leb skew most;
      payload =
          field "constraint" (str "observation-skew")
            (field "actual" (int skew) (field "passed" (bool (leb skew most)) end));
    }

abbrev pub skew_check : DatasetConstraints → List ArtifactObservation → List ConstraintResult
skew_check c os = elim c.max_observation_skew [ none ↦ [] | some most ↦ skew_result most os ∷ [] ]

module _ (equal : ArtifactObservation → ArtifactObservation → Bool) (str_json : Json → String)
    (repository : DatasetRepository) where
  -- The complete snapshots of the run of an observation of which it is a member.
  abbrev pub is_member_of : ArtifactObservation → SourceSnapshot → Bool
  is_member_of o s =
      s.complete
      && s.run_id == o.run_id
      && is_ok (any (equal o)) (snapshot_observations equal str_json repository s)

  abbrev pub snapshots_of : ArtifactObservation → List SourceSnapshot
  snapshots_of o = elim o.source_id [
    | none ↦ []
    | some source_id ↦ filter (is_member_of o) (repository.source_snapshots_for source_id)
  ]

  -- `_snapshot_check`
  unfoldable pub snapshot_check : ArtifactObservation → ConstraintResult
  unfolding snapshot_observations
  snapshot_check o =
      let matched = snapshot_ids (snapshots_of o) in
      let found = not (length matched == 0) in
      record {
        passed = found;
        payload = field "constraint" (str "complete-snapshot") (
            field "observation_id" (str o.observation_id) (
              field "snapshot_ids" (string_array (sort str_leb matched))
                (field "passed" (bool found) end)));
      }

  unfoldable pub validation_check : ArtifactObservation → String × String → ConstraintResult
  unfolding validation_to_dict
  validation_check o (validator, version) =
      let result = repository.validation o.content_id validator version in
      record {
        passed = is_passed result;
        payload = field "constraint" (str "validation") (
            field "observation_id" (str o.observation_id) (
              field "validator" (str validator) (
                field "version" (str version) (
                  field "passed" (bool (is_passed result))
                    (field "evidence" (evidence_of result) end)))));
      }

  abbrev pub observation_checks : DatasetConstraints → ArtifactObservation → List ConstraintResult
  observation_checks c o =
      (if c.complete_snapshots then snapshot_check o ∷ [] else [])
      ++ map (validation_check o) (required_validations c)

  abbrev pub constraint_results :
      DatasetConstraints → List ArtifactObservation → List ConstraintResult
  constraint_results c os =
      same_run_check c os ++ (skew_check c os ++ concat_map (observation_checks c) os)

  -- `DatasetConstraints.check`
  unfoldable pub check_constraints :
      DatasetConstraints → List ArtifactObservation → Result (List ConstraintResult)
  unfolding snapshot_check validation_check observation_skew
  check_constraints c os =
      let results = constraint_results c os in
      if all (λ r. r.passed) results then ok results else raise Fault.constraints_failed
