-- ===== src/Datasets/Constrained.antt =====
-- What the constraints of dataset_constraints.py establish of a dataset that resolves.
use mathlib.Core.Path.{subst}
use efloud.Prelude.{
  ℕ, ◌+◌, ◌≤◌, String, Bool, true, false, List, [], ◌∷◌, Option, none, some, map, ◌≡◌, refl, sym,
  ap, ◌∙◌, arith, inl, inr,
}
use efloud.Prelude.{
  if◌then◌else◌, if-true, if-false, string_eq, pair_eq, all, all_iff, leb, Member, Member-append,
  Member-map, Member-map_of, Member-unique, unique, Bool-cases, length,
}
use efloud.Prelude.Sort.{Member-sort, text_pair_leb}
use efloud.Errors.{ok, raise, Fault}
use efloud.Json.{Json}
use efloud.Models.{ArtifactObservation, ValidationResult, ValidationStatus, passed, failed, error}
use efloud.Records.{DatasetMemberRecord}
use efloud.Catalog.State.{MemoryCatalog}
use efloud.Catalog.Snapshots.{validation}
use efloud.Datasets.Snapshots.{DatasetRepository, TreeEntry, concat_map}
use efloud.Datasets.Constraints.{
  DatasetConstraints, ConstraintResult, check_constraints, constraint_results, observation_checks,
  validation_check, snapshot_check, required_validations, is_passed, same_run_check, skew_check,
  skew_result, observation_skew, greatest, least,
}
use efloud.Datasets.Reader.{catalog_reader, catalog_reader-Returns, IsRecorded}
use efloud.Datasets.Resolve.{
  DatasetDefinition, DatasetManifest, Resolved, member_of, resolve_dataset,
}
use efloud.Datasets.Members.{IsResolution, resolve_dataset-IsResolution, select-Returns}

all_same_of_one :
    (xs : List String) (a b : String) → length xs ≤ 1 → Member a xs → Member b xs → a ≡ b
all_same_of_one [] a b h m n = absurd (m tt)
all_same_of_one (x ∷ []) a b h m n = elim m [
  | inl e ↦ elim n [ inl f ↦ e ∙ sym f | inr k ↦ absurd (k tt) ]
  | inr k ↦ absurd (k tt)
]
all_same_of_one (x ∷ y ∷ ys) a b h m n = absurd (omega (arith, h))

greatest-above : (t n : ℕ) (ms : List ℕ) → Member t (n ∷ ms) → t ≤ greatest n ms
greatest-above t n [] h = ground arith
greatest-above t n (m ∷ ms) h = elim (Bool-cases (leb n m)) [
  | inl e ↦ rw e (elim h [
    | inl q ↦ ground (arith, greatest-above m m ms (inl refl))
    | inr k ↦ greatest-above t m ms k
  ])
  | inr e ↦ rw e (elim h [
    | inl q ↦ greatest-above t n ms (inl q)
    | inr (inl q) ↦ ground (arith, greatest-above n n ms (inl refl))
    | inr (inr k) ↦ greatest-above t n ms (inr k)
  ])
]

least-below : (t n : ℕ) (ms : List ℕ) → Member t (n ∷ ms) → least n ms ≤ t
least-below t n [] h = ground arith
least-below t n (m ∷ ms) h = elim (Bool-cases (leb n m)) [
  | inr e ↦ rw e (elim h [
    | inl q ↦ ground (arith, least-below m m ms (inl refl))
    | inr k ↦ least-below t m ms k
  ])
  | inl e ↦ rw e (elim h [
    | inl q ↦ least-below t n ms (inl q)
    | inr (inl q) ↦ ground (arith, least-below n n ms (inl refl))
    | inr (inr k) ↦ least-below t n ms (inr k)
  ])
]

-- Two observation times differ by the skew at most.
observation_skew-bounds :
    (os : List ArtifactObservation) (o p : ArtifactObservation)
    → Member o os
    → Member p os
    → o.observed_at ≤ p.observed_at + observation_skew os
unfolding observation_skew
observation_skew-bounds [] o p m n = absurd (m tt)
observation_skew-bounds (x ∷ xs) o p m n =
    let times = map (λ (z : ArtifactObservation). z.observed_at) xs in
    let high =
      greatest-above o.observed_at x.observed_at times
        (Member-map_of (λ z. z.observed_at) o (x ∷ xs) m) in
    let low =
      least-below p.observed_at x.observed_at times
        (Member-map_of (λ z. z.observed_at) p (x ∷ xs) n) in
    omega (arith, high, low)

is_passed-status :
    (r : Option ValidationResult)
    → is_passed r ≡ true
    → (v : ValidationResult) × (r ≡ some v) × (v.status ≡ passed)
is_passed-status none h = cc
is_passed-status (some v) h = (v, refl, status_passed v.status h)
  where
    status_passed :
        (s : ValidationStatus)
        → (elim s [ passed ↦ true | failed ↦ false | error ↦ false ]) ≡ true
        → s ≡ passed
    status_passed passed h = refl
    status_passed failed h = cc
    status_passed error h = cc

concat_map-Member {ℓ κ} :
    {A : Type ℓ} {B : Type κ} (f : A → List B) (b : B) (a : A) (xs : List A)
    → Member a xs
    → Member b (f a)
    → Member b (concat_map f xs)
concat_map-Member f b a [] m n = absurd (m tt)
concat_map-Member f b a (x ∷ xs) m n = elim m [
  | inl e ↦ (Member-append b (f x) (concat_map f xs)).1 (inl (subst (λ z. Member b (f z)) e n))
  | inr k ↦ (Member-append b (f x) (concat_map f xs)).1 (inr (concat_map-Member f b a xs k n))
]

module _ (equal : ArtifactObservation → ArtifactObservation → Bool) (str_json : Json → String)
    (repository : DatasetRepository) (c : DatasetConstraints) (os : List ArtifactObservation)
    (rs : List ConstraintResult)
    (checked : check_constraints equal str_json repository c os ≡ ok rs) where
  -- If the check returns, all of its results are passed.
  results_passed :
      (r : ConstraintResult)
      → Member r (constraint_results equal str_json repository c os)
      → r.passed ≡ true
  unfolding check_constraints
  results_passed r m =
      elim (Bool-cases (
        all (λ (r : ConstraintResult). r.passed)
          (constraint_results equal str_json repository c os))) [
            | inl e ↦
                (all_iff (λ (r : ConstraintResult). r.passed)
                    (constraint_results equal str_json repository c os)).0
                  e r m
            | inr e ↦ absurd (raised_not_ok (sym (if-false _ _ _ e) ∙ checked))
          ]
    where
      raised_not_ok : {B : Type 0} {f : Fault} {x : B} → raise f ≡ ok x → ⊥
      raised_not_ok h = cc

  checked-validation :
      (o : ArtifactObservation) (pair : String × String)
      → Member o os
      → Member pair c.validations
      → (v : ValidationResult) × (repository.validation o.content_id pair.0 pair.1 ≡ some v)
        × (v.status ≡ passed)
  unfolding validation_check
  checked-validation o pair m n =
      let checks = observation_checks equal str_json repository c in
      let r = validation_check equal str_json repository o pair in
      let required =
        (Member-sort text_pair_leb pair (unique c.validations)).1
          ((Member-unique pair c.validations).1 n) in
      let own =
        Member-map_of (validation_check equal str_json repository o) pair (required_validations c)
          required in
      let among =
        (Member-append r
            (if c.complete_snapshots then snapshot_check equal str_json repository o ∷ [] else [])
            _).1
          (inr own) in
      let late = concat_map-Member checks r o os m among in
      let there =
        (Member-append r (same_run_check c os) _).1
          (inr ((Member-append r (skew_check c os) (concat_map checks os)).1 (inr late))) in
      is_passed-status (repository.validation o.content_id pair.0 pair.1) (results_passed r there)

  checked-same_run :
      (o p : ArtifactObservation)
      → c.same_run ≡ true
      → Member o os
      → Member p os
      → o.run_id ≡ p.run_id
  checked-same_run o p e m n =
      let runs = map (λ (z : ArtifactObservation). z.run_id) os in
      let there =
        (Member-append _ (same_run_check c os) _).1
          (inl (subst (Member _) (sym (if-true _ _ _ e)) (inl refl))) in
      let few = results_passed _ there in
      all_same_of_one (unique runs) o.run_id p.run_id (ground arith)
        ((Member-unique o.run_id runs).1 (Member-map_of (λ z. z.run_id) o os m))
        ((Member-unique p.run_id runs).1 (Member-map_of (λ z. z.run_id) p os n))

  checked-skew :
      (o p : ArtifactObservation) (most : ℕ)
      → c.max_observation_skew ≡ some most
      → Member o os
      → Member p os
      → o.observed_at ≤ p.observed_at + most
  checked-skew o p most e m n =
      let r = skew_result most os in
      let there =
        (Member-append r (same_run_check c os) _).1
          (inr ((Member-append r (skew_check c os) _).1 (inl (rw e (inl refl))))) in
      let within = results_passed r there in
      let near = observation_skew-bounds os o p m n in
      omega (arith, near, within_bound (observation_skew os) most within)
    where
      within_bound : (k n : ℕ) → leb k n ≡ true → k ≤ n
      within_bound k n h = ground arith

-- Two members, and the observations of the catalog that they are made of.
pub record Observed (c : MemoryCatalog) (x y : DatasetMemberRecord)
    (R : ArtifactObservation → ArtifactObservation → Type 0) : Type 0 where
  pub first : ArtifactObservation
  pub second : ArtifactObservation
  pub first_recorded : IsRecorded c first
  pub second_recorded : IsRecorded c second
  pub first_member : x ≡ member_of (first, x.role)
  pub second_member : y ≡ member_of (second, y.role)
  pub related : R first second

module _ (equal : ArtifactObservation → ArtifactObservation → Bool) (str_json : Json → String)
    (digest : Json → String) (tree_entries : String → List TreeEntry) (c : MemoryCatalog)
    (d : DatasetDefinition) (created_at : ℕ) (m : DatasetManifest)
    (resolves : resolve_dataset equal str_json digest (catalog_reader tree_entries c) d created_at
      ≡ ok m) where
  -- The observation of a member, among those that were checked.
  member_observation :
      (resolved : List Resolved)
      → IsResolution equal str_json digest (catalog_reader tree_entries c) d resolved m
      → (x : DatasetMemberRecord) → Member x m.members
      → (o : ArtifactObservation) × Member o (map (λ z. z.0) resolved)
        × IsRecorded c o
        × (x ≡ member_of (o, x.role))
  member_observation resolved r x n =
      let (y, k, e) = Member-map member_of x resolved (subst (Member x) r.members n) in
      let (s, sel, i, f, j) = r.selected y k in
      let (known, role) =
        select-Returns equal str_json digest (catalog_reader tree_entries c) {P = IsRecorded c}
          (catalog_reader-Returns tree_entries c) s sel y f j in
      (
        y.0,
        Member-map_of (λ z. z.0) y resolved k,
        known,
        e ∙ ap (λ z. member_of (y.0, z)) (sym (ap (λ z. z.role) e)),
      )

  -- If a dataset whose constraints ask for a validation resolves in a catalog, the catalog holds a
  -- passed result of it, at that version, for the content of every member.
  pub resolve_dataset-validated :
      (x : DatasetMemberRecord) (pair : String × String)
      → Member x m.members
      → Member pair d.constraints.validations
      → (v : ValidationResult) × (validation x.content_id pair.0 pair.1 c ≡ some v)
        × (v.status ≡ passed)
  resolve_dataset-validated x pair n k =
      let repository = catalog_reader tree_entries c in
      let (resolved, r) =
        resolve_dataset-IsResolution equal str_json digest repository d created_at m resolves in
      let (o, i, known, e) = member_observation resolved r x n in
      let (v, f, p) =
        checked-validation equal str_json repository d.constraints (map (λ z. z.0) resolved)
          r.checked.0 r.checked.1 o pair i k in
      (v, ap (λ z. validation z pair.0 pair.1 c) (ap (λ z. z.content_id) e) ∙ f, p)

  -- If a dataset that asks for one run resolves in a catalog, the observations of any two of its
  -- members were made in the same run.
  pub resolve_dataset-same_run :
      (x y : DatasetMemberRecord)
      → d.constraints.same_run ≡ true
      → Member x m.members
      → Member y m.members
      → Observed c x y (λ o p. o.run_id ≡ p.run_id)
  resolve_dataset-same_run x y e n k =
      let repository = catalog_reader tree_entries c in
      let (resolved, r) =
        resolve_dataset-IsResolution equal str_json digest repository d created_at m resolves in
      let (o, i, known, f) = member_observation resolved r x n in
      let (p, j, held, g) = member_observation resolved r y k in
      record {
        first = o;
        second = p;
        first_recorded = known;
        second_recorded = held;
        first_member = f;
        second_member = g;
        related =
            checked-same_run equal str_json repository d.constraints (map (λ z. z.0) resolved)
              r.checked.0 r.checked.1 o p e i j;
      }

  -- If a dataset with a bound on the skew resolves in a catalog, the times at which any two of its
  -- members were observed differ by that bound at most.
  pub resolve_dataset-skew :
      (x y : DatasetMemberRecord) (most : ℕ)
      → d.constraints.max_observation_skew ≡ some most
      → Member x m.members
      → Member y m.members
      → Observed c x y (λ o p. o.observed_at ≤ p.observed_at + most)
  resolve_dataset-skew x y most e n k =
      let repository = catalog_reader tree_entries c in
      let (resolved, r) =
        resolve_dataset-IsResolution equal str_json digest repository d created_at m resolves in
      let (o, i, known, f) = member_observation resolved r x n in
      let (p, j, held, g) = member_observation resolved r y k in
      record {
        first = o;
        second = p;
        first_recorded = known;
        second_recorded = held;
        first_member = f;
        second_member = g;
        related =
            checked-skew equal str_json repository d.constraints (map (λ z. z.0) resolved)
              r.checked.0 r.checked.1 o p most e i j;
      }
