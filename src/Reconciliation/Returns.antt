-- ===== src/Reconciliation/Returns.antt =====
-- When `reconcile_inventory` returns and when it raises.
use mathlib.Core.Path.{subst}
use efloud.Prelude.{
  List, [], ◌∷◌, Option, none, some, map, ◌≡◌, refl, sym, ap, ◌∙◌, arith, inl, inr, ◌↔◌,
}
use efloud.Prelude.{◌==◌, string_eq, distinct_iff, Distinct, Member, Bool-cases}
use efloud.Prelude.Sort.{sort, Member-sort}
use efloud.Prelude.Dict.{lookup}
use efloud.Prelude.Keyed.{index, lookup-index}
use efloud.Prelude.Indexed.{lookup-index_sound}
use efloud.Errors.{Result, ok, ◌>>=◌, >>=-eq-ok}
use efloud.Inventory.{InventoryItem, SourceInventory, item_key}
use efloud.Reconciliation.{
  PreviousInventoryItem, ReconciliationDecision, previous_key, previous_map, unchanged, changed,
  present_decision, tokens_match, classify_present, classify_all, item_leb, reconcile_inventory,
}
use efloud.Reconciliation.Decisions.{reconcile-Reconciled}

-- An item that is in both has the same artifact in both.
abbrev pub Agree : List InventoryItem → List PreviousInventoryItem → Type 0
Agree items previous =
    (c : InventoryItem) (p : PreviousInventoryItem)
    → Member c items
    → Member p previous
    → p.item_id ≡ c.item_id
    → p.artifact_key ≡ c.artifact_key

-- The call returns.
abbrev pub IsOk {ℓ} : {A : Type ℓ} → Result A → Type ℓ
IsOk {A = A} r = (a : A) × (r ≡ ok a)

classify_present-IsOk :
    (c : InventoryItem) (q : Option PreviousInventoryItem)
    → ((p : PreviousInventoryItem) → q ≡ some p → p.artifact_key ≡ c.artifact_key)
    → IsOk (classify_present c q)
unfolding classify_present
classify_present-IsOk c none h = (_, refl)
classify_present-IsOk c (some p) h =
    let same = (string_eq.beq_iff p.artifact_key c.artifact_key).1 (h p refl) in
    elim (Bool-cases (tokens_match c.change_token p.change_token)) [
      | inl u ↦ (present_decision unchanged c (some p), rw (same, u) refl)
      | inr u ↦ (present_decision changed c (some p), rw (same, u) refl)
    ]

bind-IsOk {ℓ κ} :
    {A : Type ℓ} {B : Type κ} (r : Result A) (f : A → Result B)
    → (done : IsOk r) → IsOk (f done.0)
    → IsOk (r >>= f)
bind-IsOk r f (a, e) (b, k) = (b, ap (λ z. z >>= f) e ∙ k)

module _ (previous : List PreviousInventoryItem) (u : Distinct (map previous_key previous)) where
  classify_all-IsOk :
      (cs : List InventoryItem)
      → Agree cs previous
      → IsOk (classify_all (index previous_key previous) cs)
  unfolding classify_all
  classify_all-IsOk [] h = ([], refl)
  classify_all-IsOk (c ∷ cs) h =
      bind-IsOk (classify_present c (lookup c.item_id (index previous_key previous))) _
        (classify_present-IsOk c (lookup c.item_id (index previous_key previous)) (λ p e.
          let s = lookup-index_sound previous_key c.item_id p previous u e in
          h c p (inl refl) s.0 s.1))
        (bind-IsOk (classify_all (index previous_key previous) cs) _
          (classify_all-IsOk cs (λ x p m. h x p (inr m))) (_, refl))

  Agree-of_known :
      (c : InventoryItem) (p : PreviousInventoryItem) (d : ReconciliationDecision)
      → Member p previous
      → p.item_id ≡ c.item_id
      → classify_present c (lookup c.item_id (index previous_key previous)) ≡ ok d
      → p.artifact_key ≡ c.artifact_key
  unfolding classify_present
  Agree-of_known c p d m same h =
      let found =
        subst (λ k. lookup k (index previous_key previous) ≡ some p) same
          (lookup-index previous_key p previous u m) in
      elim (Bool-cases (p.artifact_key == c.artifact_key)) [
        | inl e ↦ (string_eq.beq_iff p.artifact_key c.artifact_key).0 e
        | inr other ↦ absurd (ground (arith, rw (found, classify_present, other) at h))
      ]

  Agree-of_classified :
      (cs : List InventoryItem) (ds : List ReconciliationDecision)
      → classify_all (index previous_key previous) cs ≡ ok ds
      → Agree cs previous
  unfolding classify_all
  Agree-of_classified [] ds h c p m n same = absurd (m tt)
  Agree-of_classified (x ∷ xs) ds h c p m n same =
      let (d, first, rest) =
        >>=-eq-ok (classify_present x (lookup x.item_id (index previous_key previous))) _ h in
      let (more, others, last) = >>=-eq-ok (classify_all (index previous_key previous) xs) _ rest in
      elim m [
        | inl e ↦
            subst (λ (z : InventoryItem). p.artifact_key ≡ z.artifact_key) (sym e)
              (Agree-of_known x p d n (same ∙ ap item_key e) first)
        | inr k ↦ Agree-of_classified xs more others c p k n same
      ]

previous_map_distinct :
    (previous : List PreviousInventoryItem)
    → Distinct (map previous_key previous)
    → previous_map previous ≡ ok (index previous_key previous)
unfolding previous_map
previous_map_distinct previous u = rw ((distinct_iff (map previous_key previous)).1 u) refl

-- A reconciliation returns exactly if the baseline names no item twice and every item that is both
-- in the inventory and in the baseline has the same artifact in both.
pub reconcile-IsOk_iff :
    (inventory : SourceInventory) (previous : List PreviousInventoryItem)
    → IsOk (reconcile_inventory inventory previous)
      ↔ (Distinct (map previous_key previous) × Agree inventory.items previous)
unfolding reconcile_inventory
reconcile-IsOk_iff inventory previous = (
  λ done.
      let k = reconcile-Reconciled inventory previous done.0 done.1 in
      (
        k.baseline,
        λ c p m.
            Agree-of_classified previous k.baseline (sort item_leb inventory.items) k.decisions
              k.classified c p ((Member-sort item_leb c inventory.items).1 m),
      ),
  λ h.
      bind-IsOk (previous_map previous) _
        (index previous_key previous, previous_map_distinct previous h.0)
        (bind-IsOk (classify_all (index previous_key previous) (sort item_leb inventory.items)) _
          (classify_all-IsOk previous h.0 (sort item_leb inventory.items)
            (λ c p m. h.1 c p ((Member-sort item_leb c inventory.items).0 m)))
          (_, refl)),
)
