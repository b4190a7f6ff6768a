-- ===== src/Datasets/Stable.antt =====
-- Datasets of named observations and of past states, as the catalog goes on.
use mathlib.Core.Path.{subst}
use efloud.Prelude.{
  ℕ, ◌≤◌, String, Bool, false, List, [], ◌∷◌, map, ◌≡◌, refl, sym, ap, ◌∙◌, arith, inl, inr,
}
use efloud.Prelude.{string_eq, All, All-at, Member, Option-cases}
use efloud.Prelude.Sort.{sort}
use efloud.Prelude.Dict.{lookup}
use efloud.Errors.{ok, >>=-eq-ok, ok_injective, traverse, traverse-agree, traverse-from}
use efloud.Json.{Json}
use efloud.Models.{ArtifactObservation}
use efloud.Catalog.State.{MemoryCatalog}
use efloud.Catalog.Calls.{
  Call, register, start, finish, start_op, finish_op, content, bundle, absence, validated, snapshot,
  dataset, run_calls, IsWellFormed,
}
use efloud.Catalog.AppendOnly.{run_calls-Extends}
use efloud.Catalog.AsOf.{IsAfter, latest_state-run_calls}
use efloud.Datasets.Snapshots.{DatasetRepository, TreeEntry, concat_map}
use efloud.Datasets.Selectors.{
  DatasetSelector, exact_observation, latest, latest_before, latest_all, exact_source_snapshot,
  latest_complete_source_snapshot, source_selection, resolve,
}
use efloud.Datasets.Constraints.{check_constraints, observation_checks, DatasetConstraints}
use efloud.Datasets.Reader.{catalog_reader}
use efloud.Datasets.Resolve.{
  DatasetSelection, DatasetDefinition, DatasetManifest, Selected, select, pinned, pinned_ids,
  resolve_dataset, resolved_leb,
}

-- A selector of a named observation, or of a state not later than a time.
abbrev pub IsPast : ℕ → DatasetSelector → Type 0
IsPast t (exact_observation id) = Unit
IsPast t (latest_before key timestamp) = timestamp ≤ t
IsPast t (latest key) = ⊥
IsPast t (latest_all before) = ⊥
IsPast t (exact_source_snapshot id) = ⊥
IsPast t (latest_complete_source_snapshot source_id before) = ⊥
IsPast t (source_selection s) = ⊥

IsAfter-le : (s t : ℕ) (call : Call) → s ≤ t → IsAfter t call → IsAfter s call
IsAfter-le s t (register id d) le h = tt
IsAfter-le s t (start id u m) le h = tt
IsAfter-le s t (finish id u st) le h = tt
IsAfter-le s t (start_op id n) le h = tt
IsAfter-le s t (finish_op id u st d) le h = tt
IsAfter-le s t (content r) le h = tt
IsAfter-le s t (bundle r o edges) le h = omega (arith, le, h)
IsAfter-le s t (absence a) le h = omega (arith, le, h)
IsAfter-le s t (validated r) le h = tt
IsAfter-le s t (snapshot r) le h = tt
IsAfter-le s t (dataset d) le h = tt

All-IsAfter-le :
    (s t : ℕ) (calls : List Call) → s ≤ t → All (IsAfter t) calls → All (IsAfter s) calls
All-IsAfter-le s t [] le h = tt
All-IsAfter-le s t (call ∷ calls) le h =
    (IsAfter-le s t call le h.0, All-IsAfter-le s t calls le h.1)

-- Constraints that ask nothing of single observations.
pub record IsCollective (c : DatasetConstraints) : Type 0 where
  pub no_snapshots : c.complete_snapshots ≡ false
  pub no_validations : c.validations ≡ []

module _ (equal : ArtifactObservation → ArtifactObservation → Bool) (str_json : Json → String)
    (digest : Json → String) (tree_entries : String → List TreeEntry) where
  past_selector_pinned :
      (repository : DatasetRepository) (t : ℕ) (selector : DatasetSelector)
      → IsPast t selector
      → pinned equal str_json digest repository selector ≡ ok selector
  past_selector_pinned repository t (exact_observation id) p = refl
  past_selector_pinned repository t (latest_before key timestamp) p = refl
  past_selector_pinned repository t (latest key) p = elim p [ ]
  past_selector_pinned repository t (latest_all before) p = elim p [ ]
  past_selector_pinned repository t (exact_source_snapshot id) p = elim p [ ]
  past_selector_pinned repository t (latest_complete_source_snapshot id before) p = elim p [ ]
  past_selector_pinned repository t (source_selection s) p = elim p [ ]

  past_selector_ids :
      (t : ℕ) (selector : DatasetSelector) → IsPast t selector → pinned_ids selector ≡ []
  past_selector_ids t (exact_observation id) p = refl
  past_selector_ids t (latest_before key timestamp) p = refl
  past_selector_ids t (latest key) p = elim p [ ]
  past_selector_ids t (latest_all before) p = elim p [ ]
  past_selector_ids t (exact_source_snapshot id) p = elim p [ ]
  past_selector_ids t (latest_complete_source_snapshot id before) p = elim p [ ]
  past_selector_ids t (source_selection s) p = elim p [ ]

  select_past :
      (repository : DatasetRepository) (t : ℕ) (s : DatasetSelection) (sel : Selected)
      → IsPast t s.selector
      → select equal str_json digest repository s ≡ ok sel
      → sel.snapshot_ids ≡ []
  select_past repository t s sel p h =
      let (selector, e, g) = >>=-eq-ok (pinned equal str_json digest repository s.selector) _ h in
      let (os, f, k) = >>=-eq-ok (resolve equal str_json repository selector) _ g in
      let same = ok_injective (sym e ∙ past_selector_pinned repository t s.selector p) in
      ap (λ z. z.snapshot_ids) (sym (ok_injective k))
      ∙ ap pinned_ids same
      ∙ past_selector_ids t s.selector p

  no_ids :
      (repository : DatasetRepository) (t : ℕ) (ds : List DatasetSelection) (sels : List Selected)
      → All (λ s. IsPast t s.selector) ds
      → ((sel : Selected)
          → Member sel sels
          → (s : DatasetSelection) × Member s ds
            × (select equal str_json digest repository s ≡ ok sel))
      → concat_map (λ s. s.snapshot_ids) sels ≡ []
  no_ids repository t ds [] past from = refl
  no_ids repository t ds (x ∷ xs) past from =
      let (s, m, e) = from x (inl refl) in
      rw (select_past repository t s x (All-at (λ s. IsPast t s.selector) s ds past m) e)
        (no_ids repository t ds xs past (λ sel n. from sel (inr n)))

  module _ (t : ℕ) (calls : List Call) (c : MemoryCatalog) (well : IsWellFormed c)
      (later : All (IsAfter t) calls) where
    resolve_past :
        (selector : DatasetSelector) (os : List ArtifactObservation)
        → IsPast t selector
        → resolve equal str_json (catalog_reader tree_entries c) selector ≡ ok os
        → resolve equal str_json (catalog_reader tree_entries (run_calls digest calls c)) selector
          ≡ ok os
    unfolding resolve
    resolve_past (exact_observation id) os p h = elim (Option-cases (lookup id c.observations)) [
      | inl e ↦ absurd (ground (arith, rw e at h))
      | inr (o, e) ↦
          rw ((run_calls-Extends digest calls c well).evidence.observation_kept id o e) (rw e at h)
    ]
    resolve_past (latest_before key timestamp) os p h =
        rw
          (latest_state-run_calls key timestamp digest calls c
            (All-IsAfter-le timestamp t calls p later))
          h
    resolve_past (latest key) os p h = elim p [ ]
    resolve_past (latest_all before) os p h = elim p [ ]
    resolve_past (exact_source_snapshot id) os p h = elim p [ ]
    resolve_past (latest_complete_source_snapshot id before) os p h = elim p [ ]
    resolve_past (source_selection s) os p h = elim p [ ]

  no_observation_checks :
      (repository : DatasetRepository) (c : DatasetConstraints) (os : List ArtifactObservation)
      → IsCollective c
      → concat_map (observation_checks equal str_json repository c) os ≡ []
  unfolding sort
  no_observation_checks repository c [] p = refl
  no_observation_checks repository c (o ∷ os) p =
      rw (p.no_snapshots, p.no_validations) (no_observation_checks repository c os p)

  check_constraints-collective :
      (first second : DatasetRepository) (c : DatasetConstraints) (os : List ArtifactObservation)
      → IsCollective c
      → check_constraints equal str_json first c os ≡ check_constraints equal str_json second c os
  unfolding check_constraints
  check_constraints-collective first second c os p =
      rw (no_observation_checks first c os p, no_observation_checks second c os p) refl

  module _ (t : ℕ) (calls : List Call) (c : MemoryCatalog) (well : IsWellFormed c)
      (later : All (IsAfter t) calls) where
    select_agrees :
        (s : DatasetSelection) (sel : Selected)
        → IsPast t s.selector
        → select equal str_json digest (catalog_reader tree_entries c) s ≡ ok sel
        → select equal str_json digest (catalog_reader tree_entries (run_calls digest calls c)) s
          ≡ ok sel
    select_agrees s sel p h =
        let before = catalog_reader tree_entries c in
        let after = catalog_reader tree_entries (run_calls digest calls c) in
        let (selector, e, g) = >>=-eq-ok (pinned equal str_json digest before s.selector) _ h in
        let (os, f, k) = >>=-eq-ok (resolve equal str_json before selector) _ g in
        let same = ok_injective (sym e ∙ past_selector_pinned before t s.selector p) in
        let again =
          resolve_past t calls c well later selector os (subst (IsPast t) (sym same) p) f in
        rw (past_selector_pinned after t s.selector p, sym same, again) k

    -- A dataset of named observations and of states not later than a time, with no constraint on
    -- single observations, that resolves in a well-formed catalog resolves to the same manifest
    -- after any sequence of calls that record evidence after that time.
    pub resolve_dataset-run_calls :
        (d : DatasetDefinition) (created_at : ℕ) (m : DatasetManifest)
        → All (λ s. IsPast t s.selector) d.selections
        → IsCollective d.constraints
        → resolve_dataset equal str_json digest (catalog_reader tree_entries c) d created_at ≡ ok m
        → resolve_dataset equal str_json digest
            (catalog_reader tree_entries (run_calls digest calls c))
            d
            created_at
          ≡ ok m
    unfolding resolve_dataset sort
    resolve_dataset-run_calls d created_at m past plain h =
        let before = catalog_reader tree_entries c in
        let after = catalog_reader tree_entries (run_calls digest calls c) in
        let (selected, e, g) =
          >>=-eq-ok (traverse (select equal str_json digest before) d.selections) _ h in
        let again =
          traverse-agree (select equal str_json digest before) (select equal str_json digest after)
            d.selections selected
            (λ s n sel.
              select_agrees s sel (All-at (λ s. IsPast t s.selector) s d.selections past n))
            e in
        let none_pinned = no_ids before t d.selections selected past (λ sel n.
          traverse-from (select equal str_json digest before) d.selections selected sel e n) in
        let checks =
          check_constraints-collective after before d.constraints
            (map (λ x. x.0) (sort resolved_leb (concat_map (λ s. s.resolved) selected))) plain in
        rw (again, none_pinned, checks) (rw none_pinned at g)
