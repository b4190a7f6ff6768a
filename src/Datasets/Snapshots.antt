-- ===== src/Datasets/Snapshots.antt =====
-- src/efloud/dataset_selectors.py: the members of a source snapshot, from recorded evidence. `equal`
-- stands for `==` on observations, `str_json` for `str` of a value that is not a text.
use efloud.Prelude.{
  ℕ, String, Bool, true, false, List, [], ◌∷◌, ◌++◌, Option, none, some, not, map, ◌&&◌, ◌||◌,
}
use efloud.Prelude.{
  if◌then◌else◌, ◌==◌, string_eq, nat_eq, option_eq, filter, any, distinct, length, leb,
}
use efloud.Prelude.Sort.{sort}
use efloud.Prelude.Text.{str_leb}
use efloud.Errors.{Result, ok, raise, Fault, ◌>>=◌, traverse}
use efloud.Json.{Json, null, bool, str, get, list_or_none}
use efloud.Models.{
  SourceId, ContentId, ObservationId, SnapshotId, ArtifactKey, ArtifactObservation, ArtifactState,
  present, absent, SourceSnapshot, ValidationResult,
}
use efloud.Records.{SourceRecord}

-- What the selectors read of a `TreeEntry`.
pub record TreeEntry : Type 0 where
  pub relative_path : String
  pub kind : String
  pub content_id : Option ContentId

-- `DatasetRepository`, the methods that the selectors and the constraints call.
pub record DatasetRepository : Type 0 where
  pub observation : ObservationId → Option ArtifactObservation
  pub latest_state : ArtifactKey → Option ℕ → Option ArtifactState
  pub artifact_keys : List ArtifactKey
  pub observations_for : ArtifactKey → List ArtifactObservation
  pub source_snapshot : SnapshotId → Option SourceSnapshot
  pub source_snapshots_for : SourceId → List SourceSnapshot
  pub validation : ContentId → String → String → Option ValidationResult
  pub source : SourceId → Option SourceRecord
  pub tree_entries : String → List TreeEntry

-- The observation of a state, unless it is an absence.
abbrev pub present_of : Option ArtifactState → Option ArtifactObservation
present_of none = none
present_of (some (present o)) = some o
present_of (some (absent a)) = none

abbrev pub concat_map {ℓ κ} : {A : Type ℓ} {B : Type κ} → (A → List B) → List A → List B
concat_map f [] = []
concat_map f (x ∷ xs) = f x ++ concat_map f xs

abbrev pub is_false : Option Json → Bool
is_false (some (bool false)) = true
is_false _ = false

-- `bound is None`
abbrev pub is_none_value : Option Json → Bool
is_none_value none = true
is_none_value (some null) = true
is_none_value _ = false

abbrev pub raise_if : Bool → Fault → Result (Unit {0})
raise_if b fault = if b then raise fault else ok tt

abbrev pub from_option {κ} : {B : Type κ} → Fault → Option B → Result B
from_option fault none = raise fault
from_option fault (some b) = ok b

-- A snapshot that does not establish complete membership.
abbrev pub is_incomplete : SourceSnapshot → Bool
is_incomplete s =
    not s.complete
    || is_false (get "reconciliation_complete" s.evidence)
    || is_false (get "acquisition_complete" s.evidence)

abbrev pub is_candidate : SourceSnapshot → ArtifactObservation → Bool
is_candidate s o =
    o.source_id == some s.source_id && o.run_id == s.run_id && leb o.observed_at s.observed_at

abbrev pub observation_key : ArtifactObservation → ArtifactKey
observation_key o = o.artifact_key

abbrev pub artifact_leb : ArtifactObservation → ArtifactObservation → Bool
artifact_leb a b = str_leb a.artifact_key b.artifact_key

-- The entries of a tree that are files.
abbrev pub is_file_entry : TreeEntry → Bool
is_file_entry e = not (e.kind == "directory" || e.kind == "symlink" || e.kind == "absent")

abbrev pub matches_entry : TreeEntry → ArtifactObservation → Bool
matches_entry e o = o.source_path == some e.relative_path && some o.content_id == e.content_id

-- `matching[0]` if there is exactly one.
abbrev pub only {ℓ} : {A : Type ℓ} → Fault → List A → Result A
only fault [] = raise fault
only fault (x ∷ []) = ok x
only fault (x ∷ y ∷ ys) = raise fault

module _ (equal : ArtifactObservation → ArtifactObservation → Bool) (str_json : Json → String)
    (repository : DatasetRepository) where
  -- `str(value)`
  abbrev pub text_of : Json → String
  text_of (str s) = s
  text_of v = str_json v

  unfoldable pub snapshot_candidates : SourceSnapshot → List ArtifactObservation
  snapshot_candidates s =
      concat_map (λ key. filter (is_candidate s) (repository.observations_for key))
        repository.artifact_keys

  -- An observation that the snapshot names, among the candidates.
  abbrev pub bound_observation : List ArtifactObservation → Json → Result ArtifactObservation
  bound_observation candidates value = elim (repository.observation (text_of value)) [
    | none ↦ raise Fault.invalid_binding
    | some o ↦ if any (equal o) candidates then ok o else raise Fault.invalid_binding
  ]

  abbrev pub bound_observations :
      Option Json → List ArtifactObservation → Result (List ArtifactObservation)
  bound_observations bound candidates = elim (list_or_none bound) [
    | none ↦ ok candidates
    | some values ↦ traverse (bound_observation candidates) values
  ]

  abbrev pub tree_members :
      SourceSnapshot → List ArtifactObservation → Result (List ArtifactObservation)
  tree_members s candidates = elim s.tree_id [
    | none ↦
        if is_none_value (get "observation_ids" s.evidence) && not (length candidates == 1)
        then raise Fault.membership_unproved
        else ok candidates
    | some tree_id ↦
        traverse (λ e. only Fault.member_ambiguous (filter (matches_entry e) candidates))
          (filter is_file_entry (repository.tree_entries tree_id))
  ]

  -- `snapshot_observations`
  unfoldable pub snapshot_observations : SourceSnapshot → Result (List ArtifactObservation)
  unfolding snapshot_candidates
  snapshot_observations s = do
    complete ← raise_if (is_incomplete s) Fault.snapshot_incomplete
    bound ← bound_observations (get "observation_ids" s.evidence) (snapshot_candidates s)
    members ← tree_members s bound
    apart ← raise_if (not (distinct (map observation_key members))) Fault.ambiguous_observations
    ok (sort artifact_leb members)
