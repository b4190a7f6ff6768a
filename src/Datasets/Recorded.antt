-- ===== src/Datasets/Recorded.antt =====
-- What a selector resolves to was recorded in the repository that it reads.
use mathlib.Core.Path.{subst}
use mathlib.Core.Option.{some-injective}
use efloud.Prelude.{
  ℕ, String, Bool, List, [], ◌∷◌, Option, none, some, not, map, ◌≡◌, refl, sym, ap, arith, inl, inr,
  ◌&&◌,
}
use efloud.Prelude.{
  ◌==◌, string_eq, nat_eq, any, filter, Member, Member-filter, Member-append, Bool-cases,
  Option-cases, length, distinct,
}
use efloud.Prelude.Sort.{Member-sort}
use efloud.Errors.{ok, Fault, >>=-eq-ok, ok_injective, traverse, traverse-from}
use efloud.Json.{Json, get, list_or_none}
use efloud.Models.{
  ObservationId, ArtifactKey, ArtifactObservation, ArtifactState, present, absent, SourceSnapshot,
}
use efloud.Datasets.Snapshots.{
  DatasetRepository, present_of, concat_map, raise_if, from_option, snapshot_candidates,
  bound_observation, bound_observations, tree_members, snapshot_observations, only, is_candidate,
  matches_entry, is_file_entry, artifact_leb, is_incomplete, observation_key, is_none_value,
  text_of,
}
use efloud.Datasets.Selectors.{
  DatasetSelector, exact_observation, latest, latest_before, latest_all, exact_source_snapshot,
  latest_complete_source_snapshot, source_selection, SourceSelection, selected_state,
  selection_matches, resolve_selection, complete_snapshot, present_states, one, resolve,
  starts_with, is_reversed,
}

-- Every observation that the repository returns has a property.
pub record Returns {κ} (repository : DatasetRepository) (P : ArtifactObservation → Type κ)
    : Type κ where
  pub observation :
      (id : ObservationId) (o : ArtifactObservation) → repository.observation id ≡ some o → P o
  pub state :
      (key : ArtifactKey) (before : Option ℕ) (o : ArtifactObservation)
      → repository.latest_state key before ≡ some (present o)
      → P o
  pub listed :
      (key : ArtifactKey) (o : ArtifactObservation)
      → Member o (repository.observations_for key)
      → P o

pub Member-concat_map {ℓ κ} :
    {A : Type ℓ} {B : Type κ} (f : A → List B) (b : B) (xs : List A)
    → Member b (concat_map f xs)
    → (a : A) × Member a xs × Member b (f a)
Member-concat_map f b [] m = absurd (m tt)
Member-concat_map f b (x ∷ xs) m = elim ((Member-append b (f x) (concat_map f xs)).0 m) [
  | inl k ↦ (x, inl refl, k)
  | inr k ↦ let (a, n, j) = Member-concat_map f b xs k in (a, inr n, j)
]

Member-only {ℓ} :
    {A : Type ℓ} (fault : Fault) (xs : List A) (x : A) → only fault xs ≡ ok x → Member x xs
Member-only fault [] x h = cc
Member-only fault (y ∷ []) x h = inl (sym (ok_injective h))
Member-only fault (y ∷ z ∷ zs) x h = cc

present_of-some :
    (s : Option ArtifactState) (o : ArtifactObservation)
    → present_of s ≡ some o
    → s ≡ some (present o)
present_of-some none o h = cc
present_of-some (some (present p)) o h = ap (λ z. some (present z)) (some-injective _ _ h)
present_of-some (some (absent a)) o h = cc

module _ {κ} (equal : ArtifactObservation → ArtifactObservation → Bool) (str_json : Json → String)
    (repository : DatasetRepository) (P : ArtifactObservation → Type κ)
    (returns : Returns repository P) where
  bound_observation-Returns :
      (candidates : List ArtifactObservation) (value : Json) (o : ArtifactObservation)
      → bound_observation equal str_json repository candidates value ≡ ok o
      → P o
  bound_observation-Returns candidates value o h =
      elim (Option-cases (repository.observation (text_of equal str_json repository value))) [
        | inl e ↦ absurd (ground (arith, rw (e, bound_observation) at h))
        | inr (x, e) ↦ elim (Bool-cases (any (equal x) candidates)) [
          | inl y ↦
              subst P (ok_injective (rw (e, y, bound_observation) at h)) (returns.observation _ x e)
          | inr n ↦ absurd (ground (arith, rw (e, n, bound_observation) at h))
        ]
      ]

  candidates-Returns :
      (s : SourceSnapshot) (o : ArtifactObservation)
      → Member o (snapshot_candidates equal str_json repository s)
      → P o
  unfolding snapshot_candidates
  candidates-Returns s o m =
      let (key, n, k) =
        Member-concat_map (λ key. filter (is_candidate s) (repository.observations_for key)) o
          repository.artifact_keys m in
      returns.listed key o
        ((Member-filter (is_candidate s) o (repository.observations_for key)).0 k).0

  bound_observations-Returns :
      (bound : Option Json) (candidates os : List ArtifactObservation)
      → ((o : ArtifactObservation) → Member o candidates → P o)
      → bound_observations equal str_json repository bound candidates ≡ ok os
      → (o : ArtifactObservation) → Member o os
      → P o
  bound_observations-Returns bound candidates os known h o m =
      elim (Option-cases (list_or_none bound)) [
        | inl e ↦
            known o (subst (Member o) (sym (ok_injective (rw (e, bound_observations) at h))) m)
        | inr (values, e) ↦
            let (v, n, i) =
              traverse-from (bound_observation equal str_json repository candidates) values os o
                (rw (e, bound_observations) at h) m in
            bound_observation-Returns candidates v o i
      ]

  tree_members-Returns :
      (s : SourceSnapshot) (candidates os : List ArtifactObservation)
      → ((o : ArtifactObservation) → Member o candidates → P o)
      → tree_members equal str_json repository s candidates ≡ ok os
      → (o : ArtifactObservation) → Member o os
      → P o
  tree_members-Returns s candidates os known h o m = elim (Option-cases s.tree_id) [
    | inl e ↦
        elim (Bool-cases
          (is_none_value (get "observation_ids" s.evidence) && not (length candidates == 1))) [
            | inl y ↦ absurd (ground (arith, rw (e, y, tree_members) at h))
            | inr n ↦
                known o (subst (Member o) (sym (ok_injective (rw (e, n, tree_members) at h))) m)
          ]
    | inr (tree_id, e) ↦
        let (entry, n, i) =
          traverse-from (λ e. only Fault.member_ambiguous (filter (matches_entry e) candidates))
            (filter is_file_entry (repository.tree_entries tree_id)) os o
            (rw (e, tree_members) at h) m in
        let k = Member-only Fault.member_ambiguous (filter (matches_entry entry) candidates) o i in
        known o ((Member-filter (matches_entry entry) o candidates).0 k).0
  ]

  snapshot_observations-Returns :
      (s : SourceSnapshot) (os : List ArtifactObservation) (o : ArtifactObservation)
      → snapshot_observations equal str_json repository s ≡ ok os
      → Member o os
      → P o
  unfolding snapshot_observations
  snapshot_observations-Returns s os o h m =
      let (c, e, g) = >>=-eq-ok (raise_if (is_incomplete s) Fault.snapshot_incomplete) _ h in
      let candidates = snapshot_candidates equal str_json repository s in
      let (bound, f, k) =
        >>=-eq-ok
          (bound_observations equal str_json repository (get "observation_ids" s.evidence)
            candidates)
          _ g in
      let (members, i, j) = >>=-eq-ok (tree_members equal str_json repository s bound) _ k in
      let (a, b, l) =
        >>=-eq-ok
          (raise_if (not (distinct (map observation_key members))) Fault.ambiguous_observations) _
          j in
      let n = (Member-sort artifact_leb o members).0 (subst (Member o) (sym (ok_injective l)) m) in
      tree_members-Returns s bound members
        (bound_observations-Returns (get "observation_ids" s.evidence) candidates bound
          (candidates-Returns s) f)
        i o n

  present-Returns :
      (key : ArtifactKey) (before : Option ℕ) (o : ArtifactObservation)
      → present_of (repository.latest_state key before) ≡ some o
      → P o
  present-Returns key before o h = returns.state key before o (present_of-some _ o h)

  one-Returns :
      (fault : Fault) (x : Option ArtifactObservation) (os : List ArtifactObservation)
      → ((o : ArtifactObservation) → x ≡ some o → P o)
      → one equal str_json repository fault x ≡ ok os
      → (o : ArtifactObservation) → Member o os
      → P o
  one-Returns fault none os known h o m = cc
  one-Returns fault (some y) os known h o m = elim (subst (Member o) (sym (ok_injective h)) m) [
    | inl e ↦ subst P (sym e) (known y refl)
    | inr n ↦ absurd (n tt)
  ]

  present_states-Returns :
      (before : Option ℕ) (keys : List ArtifactKey) (o : ArtifactObservation)
      → Member o (present_states equal str_json repository before keys)
      → P o
  present_states-Returns before [] o m = absurd (m tt)
  present_states-Returns before (key ∷ keys) o m =
      elim (Option-cases (present_of (repository.latest_state key before))) [
        | inl e ↦ present_states-Returns before keys o (rw (e, present_states) at m)
        | inr (x, e) ↦ elim (rw (e, present_states) at m) [
          | inl q ↦ subst P (sym q) (present-Returns key before x e)
          | inr n ↦ present_states-Returns before keys o n
        ]
      ]

  selected_state-Returns :
      (s : SourceSelection) (key : ArtifactKey) (os : List ArtifactObservation)
      (o : ArtifactObservation)
      → selected_state equal str_json repository s key ≡ ok os
      → Member o os
      → P o
  selected_state-Returns s key os o h m = elim (Bool-cases (starts_with s.prefix key)) [
    | inr e ↦ absurd (subst (Member o) (sym (ok_injective (rw (e, selected_state) at h))) m tt)
    | inl e ↦ elim (Option-cases (present_of (repository.latest_state key s.before))) [
      | inl f ↦ absurd (subst (Member o) (sym (ok_injective (rw (e, f, selected_state) at h))) m tt)
      | inr (x, f) ↦
          let (matched, g, k) =
            >>=-eq-ok (selection_matches equal str_json repository s x) _
              (rw (e, f, selected_state) at h) in
          elim (Bool-cases matched) [
            | inl y ↦ elim (subst (Member o) (sym (ok_injective (rw y at k))) m) [
              | inl q ↦ subst P (sym q) (present-Returns key s.before x f)
              | inr n ↦ absurd (n tt)
            ]
            | inr n ↦ absurd (subst (Member o) (sym (ok_injective (rw n at k))) m tt)
          ]
    ]
  ]

  selection-Returns :
      (s : SourceSelection) (os : List ArtifactObservation) (o : ArtifactObservation)
      → resolve_selection equal str_json repository s ≡ ok os
      → Member o os
      → P o
  unfolding resolve_selection
  selection-Returns s os o h m =
      let (ordered, e, g) =
        >>=-eq-ok (raise_if (is_reversed s.after s.before) Fault.interval_reversed) _ h in
      let (states, f, k) =
        >>=-eq-ok (traverse (selected_state equal str_json repository s) repository.artifact_keys) _
          g in
      let (part, n, j) =
        Member-concat_map (λ x. x) o states (subst (Member o) (sym (ok_injective k)) m) in
      let (key, i, d) =
        traverse-from (selected_state equal str_json repository s) repository.artifact_keys states
          part f n in
      selected_state-Returns s key part o d j

  -- A selector resolves to observations that the repository returned.
  pub resolve-Returns :
      (selector : DatasetSelector) (os : List ArtifactObservation) (o : ArtifactObservation)
      → resolve equal str_json repository selector ≡ ok os
      → Member o os
      → P o
  unfolding resolve
  resolve-Returns (exact_observation id) os o h m =
      one-Returns Fault.unknown_observation _ os (λ x e. returns.observation id x e) h o m
  resolve-Returns (latest key) os o h m =
      one-Returns Fault.artifact_absent _ os (λ x e. present-Returns key none x e) h o m
  resolve-Returns (latest_before key timestamp) os o h m =
      one-Returns Fault.artifact_absent _ os (λ x e. present-Returns key (some timestamp) x e) h o m
  resolve-Returns (latest_all before) os o h m =
      present_states-Returns before repository.artifact_keys o
        (subst (Member o) (sym (ok_injective h)) m)
  resolve-Returns (exact_source_snapshot id) os o h m =
      let (s, e, g) =
        >>=-eq-ok (from_option Fault.unknown_snapshot (repository.source_snapshot id)) _ h in
      snapshot_observations-Returns s os o g m
  resolve-Returns (latest_complete_source_snapshot source_id before) os o h m =
      let (s, e, g) =
        >>=-eq-ok (complete_snapshot equal str_json repository source_id before) _ h in
      snapshot_observations-Returns s os o g m
  resolve-Returns (source_selection s) os o h m = selection-Returns s os o h m
