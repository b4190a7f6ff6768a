-- ===== src/Datasets/Members.antt =====
-- The members of a resolved dataset: recorded, each artifact once, in order, and as constrained.
use mathlib.Core.Path.{subst}
use efloud.Prelude.{
  ℕ, String, Bool, true, false, List, [], ◌∷◌, map, ◌≡◌, ◌⊎◌, refl, sym, ap, ◌∙◌, arith, inl, inr,
}
use efloud.Prelude.{
  if◌then◌else◌, ◌==◌, string_eq, nat_eq, pair_eq, All-of, All-at, contains, Distinct, Member,
  Member-map, Bool-cases,
}
use efloud.Prelude.Sort.{
  sort, Member-sort, Sorted, sort-Sorted, IsOrder, IsOrder-key, text_pair_leb,
  text_pair_leb-IsOrder,
}
use efloud.Prelude.Text.{str_leb, str_leb_total, str_leb_trans, str_leb_antisymm}
use efloud.Errors.{ok, Fault, >>=-eq-ok, ok_injective, traverse, traverse-from}
use efloud.Json.{Json}
use efloud.Models.{ArtifactKey, ArtifactObservation}
use efloud.Records.{DatasetMemberRecord}
use efloud.Datasets.Snapshots.{DatasetRepository, concat_map, raise_if}
use efloud.Datasets.Selectors.{resolve}
use efloud.Datasets.Constraints.{ConstraintResult, check_constraints}
use efloud.Datasets.Recorded.{Returns, resolve-Returns, Member-concat_map}
use efloud.Datasets.Resolve.{
  DatasetSelection, DatasetDefinition, DatasetManifest, Resolved, Selected, role_or_empty,
  resolved_leb, resolved_key, member_of, members_of, select, pinned, lacks_evidence,
  resolve_dataset,
}

abbrev pub member_key : DatasetMemberRecord → ArtifactKey
member_key m = m.artifact_key

-- What the loop over `resolved` returns.
members_of-eq :
    (seen : List ArtifactKey) (xs : List Resolved) (ms : List DatasetMemberRecord)
    → members_of seen xs ≡ ok ms
    → (ms ≡ map member_of xs)
      × Distinct (map member_key ms)
      × ((k : ArtifactKey) → contains seen k ≡ true → contains (map member_key ms) k ≡ false)
unfolding members_of
members_of-eq seen [] ms h =
    let e = sym (ok_injective h) in
    (e, subst (λ z. Distinct (map member_key z)) (sym e) tt, λ k y. rw e refl)
members_of-eq seen (x ∷ xs) ms h = elim (Bool-cases (contains seen (resolved_key x))) [
  | inl y ↦ absurd (ground (arith, rw (y, members_of) at h))
  | inr n ↦
      let (rest, e, g) =
        >>=-eq-ok (members_of (resolved_key x ∷ seen) xs) _ (rw (n, members_of) at h) in
      let (same, apart, out) = members_of-eq (resolved_key x ∷ seen) xs rest e in
      let q = ok_injective g in
      subst
        (λ z.
          (z ≡ map member_of (x ∷ xs))
          × Distinct (map member_key z)
          × ((k : ArtifactKey) → contains seen k ≡ true → contains (map member_key z) k ≡ false))
        q
        (
          ap (◌∷◌ (member_of x)) same,
          (
            out (resolved_key x)
                (ground (arith, string_eq.beq_iff (resolved_key x) (resolved_key x))),
            apart,
          ),
          λ k y. ground (arith, out k (ground arith), string_eq.beq_iff k (resolved_key x)),
        )
]

module _ {ℓ} {A : Type ℓ} (le : A → A → Bool) (o : IsOrder le) where
  -- By a text first, then by the rest.
  abbrev then_leb : String × A → String × A → Bool
  then_leb (s, a) (t, b) = if s == t then le a b else str_leb s t

  then_total : (p q : String × A) → (then_leb p q ≡ true) ⊎ (then_leb q p ≡ true)
  then_total (s, a) (t, b) =
      ground (arith, o.total a b, str_leb_total s t, string_eq.beq_iff s t, string_eq.beq_iff t s)

  then_trans :
      (p q w : String × A) → then_leb p q ≡ true → then_leb q w ≡ true → then_leb p w ≡ true
  then_trans (s, a) (t, b) (u, c) h k = ground (
    arith,
    o.trans a b c,
    str_leb_trans s t u,
    string_eq.beq_iff s t,
    string_eq.beq_iff t u,
    string_eq.beq_iff s u,
    str_leb_antisymm s t,
  )

  then-IsOrder : IsOrder then_leb
  then-IsOrder = record { total = then_total; trans = then_trans }

abbrev sort_key : Resolved → String × (String × String)
sort_key (o, role) = (o.artifact_key, (role_or_empty role, o.observation_id))

resolved_leb-IsOrder : IsOrder resolved_leb
resolved_leb-IsOrder =
    let i = IsOrder-key (then-IsOrder text_pair_leb text_pair_leb-IsOrder) sort_key in
    record {
      total = λ (a, r) (b, q). i.total (a, r) (b, q);
      trans = λ (a, r) (b, q) (c, s) h k. i.trans (a, r) (b, q) (c, s) h k;
    }

abbrev pub member_leb : DatasetMemberRecord → DatasetMemberRecord → Bool
member_leb a b = str_leb a.artifact_key b.artifact_key

members_sorted :
    (xs : List Resolved) → Sorted resolved_leb xs → Sorted member_leb (map member_of xs)
members_sorted [] s = tt
members_sorted (x ∷ xs) s = (
  All-of _ (map member_of xs) (λ m n.
      let (y, k, e) = Member-map member_of m xs n in
      let before = All-at (λ z. resolved_leb x z ≡ true) y xs s.0 k in
      subst (λ z. member_leb (member_of x) z ≡ true) (sym e) (key_leb_of x y before)),
  members_sorted xs s.1,
)
  where
    key_leb_of :
        (x y : Resolved) → resolved_leb x y ≡ true → member_leb (member_of x) (member_of y) ≡ true
    key_leb_of (a, r) (b, q) h = ground (
      arith,
      string_eq.beq_iff a.artifact_key b.artifact_key,
      str_leb_total a.artifact_key b.artifact_key,
    )

module _ (equal : ArtifactObservation → ArtifactObservation → Bool) (str_json : Json → String)
    (digest : Json → String) (repository : DatasetRepository) where
  -- How the members of a manifest come from the selections.
  pub record IsResolution (d : DatasetDefinition) (resolved : List Resolved) (m : DatasetManifest)
      : Type 0 where
    pub members : m.members ≡ map member_of resolved
    pub apart : Distinct (map member_key m.members)
    pub ordered : Sorted member_leb m.members
    pub selected :
        (x : Resolved)
        → Member x resolved
        → (s : DatasetSelection) × (sel : Selected) × Member s d.selections
          × (select equal str_json digest repository s ≡ ok sel)
          × Member x sel.resolved
    pub checked :
        (rs : List ConstraintResult) × (check_constraints equal str_json repository d.constraints
            (map (λ x. x.0) resolved)
          ≡ ok rs)

  pub resolve_dataset-IsResolution :
      (d : DatasetDefinition) (created_at : ℕ) (m : DatasetManifest)
      → resolve_dataset equal str_json digest repository d created_at ≡ ok m
      → (resolved : List Resolved) × IsResolution d resolved m
  unfolding resolve_dataset
  resolve_dataset-IsResolution d created_at m h =
      let (selected, e, g) =
        >>=-eq-ok (traverse (select equal str_json digest repository) d.selections) _ h in
      let resolved = sort resolved_leb (concat_map (λ s. s.resolved) selected) in
      let (members, f, k) = >>=-eq-ok (members_of [] resolved) _ g in
      let (evident, i, j) =
        >>=-eq-ok
          (raise_if
            (lacks_evidence equal str_json digest repository d resolved
              (concat_map (λ s. s.snapshot_ids) selected))
            Fault.constraints_failed)
          _ k in
      let (results, a, b) =
        >>=-eq-ok
          (check_constraints equal str_json repository d.constraints (map (λ x. x.0) resolved)) _
          j in
      let (same, apart, out) = members_of-eq [] resolved members f in
      let q = ap (λ z. z.members) (ok_injective b) in
      (
        resolved,
        record {
          members = sym q ∙ same;
          apart = subst (λ z. Distinct (map member_key z)) q apart;
          ordered = subst (Sorted member_leb) (sym same ∙ q) (
              members_sorted resolved
                (sort-Sorted resolved_leb-IsOrder (concat_map (λ s. s.resolved) selected)));
          selected = λ x n.
              let (sel, l, p) =
                Member-concat_map (λ s. s.resolved) x selected
                  ((Member-sort resolved_leb x _).0 n) in
              let (s, r, t) =
                traverse-from (select equal str_json digest repository) d.selections selected sel e
                  l in
              (s, sel, r, t, p);
          checked = (results, a);
        },
      )

  -- What a selection resolves to is returned by the repository, under the role of the selection.
  pub select-Returns :
      {P : ArtifactObservation → Type 0} (returns : Returns repository P) (s : DatasetSelection)
      (sel : Selected) (x : Resolved)
      → select equal str_json digest repository s ≡ ok sel
      → Member x sel.resolved
      → P x.0 × (x.1 ≡ s.role)
  select-Returns {P = P} returns s sel x h m =
      let (selector, e, g) = >>=-eq-ok (pinned equal str_json digest repository s.selector) _ h in
      let (os, f, k) = >>=-eq-ok (resolve equal str_json repository selector) _ g in
      let (o, n, q) =
        Member-map (λ o. (o, s.role)) x os
          (subst (λ z. Member x z.resolved) (sym (ok_injective k)) m) in
      (
        subst (λ z. P z.0) (sym q)
            (resolve-Returns equal str_json repository P returns selector os o f n),
        ap (λ z. z.1) q,
      )
