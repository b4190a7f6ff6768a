-- ===== src/Reconciliation/Complete.antt =====
-- Which items the decisions of `reconcile_inventory` are on.
use mathlib.Core.Path.{subst}
use mathlib.Core.List.{map-append}
use efloud.Prelude.{
  String, Bool, true, false, List, [], ◌∷◌, ◌++◌, Option, none, some, not, map, ◌≡◌, refl, sym, ap,
  ◌∙◌, arith, inl, inr,
}
use efloud.Prelude.{
  if◌then◌else◌, ◌==◌, string_eq, Distinct, contains, filter, Member, Member-filter, Member-append,
  Member-map, Member-map_of, Bool-cases,
}
use efloud.Prelude.Sort.{sort, Member-sort}
use efloud.Prelude.Dict.{Dict, lookup}
use efloud.Prelude.Keyed.{index}
use efloud.Prelude.Indexed.{sort-Distinct, contains-map-sort, filter-Distinct, append-Distinct}
use efloud.Errors.{ok, >>=-eq-ok, ok_injective}
use efloud.Inventory.{InventoryItem, SourceInventory, item_key, coverage_contains}
use efloud.Reconciliation.{
  PreviousInventoryItem, ReconciliationDecision, ReconciliationResult, previous_key, decision_key,
  tokens_match, classify_present, absent_decision, is_omitted, absent_decisions, classify_all,
  item_leb, decision_leb, reconcile_inventory,
}
use efloud.Reconciliation.Decisions.{reconcile-Reconciled, absent-IsGone}

-- The decision is on the item.
abbrev pub IsOn : InventoryItem → ReconciliationDecision → Type 0
IsOn c d = (d.item_id ≡ c.item_id) × (d.current ≡ some c)

classify_present-IsOn :
    (c : InventoryItem) (p : Option PreviousInventoryItem) (d : ReconciliationDecision)
    → classify_present c p ≡ ok d
    → IsOn c d
unfolding classify_present
classify_present-IsOn c none d h = rw (← (ok_injective h)) (refl, refl)
classify_present-IsOn c (some p) d h = elim (Bool-cases (p.artifact_key == c.artifact_key)) [
  | inr n ↦ ground arith
  | inl same ↦ elim (Bool-cases (tokens_match c.change_token p.change_token)) [
    | inl u ↦ rw (← (ok_injective (rw (same, u) at h))) (refl, refl)
    | inr u ↦ rw (← (ok_injective (rw (same, u) at h))) (refl, refl)
  ]
]

module _ (baseline : Dict String PreviousInventoryItem) where
  classify_all-keys :
      (cs : List InventoryItem) (ds : List ReconciliationDecision)
      → classify_all baseline cs ≡ ok ds
      → map decision_key ds ≡ map item_key cs
  unfolding classify_all
  classify_all-keys [] ds h = rw (← (ok_injective h)) refl
  classify_all-keys (c ∷ cs) ds h =
      let (x, first, rest) = >>=-eq-ok (classify_present c (lookup c.item_id baseline)) _ h in
      let (xs, more, last) = >>=-eq-ok (classify_all baseline cs) _ rest in
      let on = classify_present-IsOn c (lookup c.item_id baseline) x first in
      rw (← (ok_injective last), classify_all-keys cs xs more, on.0) refl

  classify_all-covers :
      (cs : List InventoryItem) (ds : List ReconciliationDecision)
      → classify_all baseline cs ≡ ok ds
      → (c : InventoryItem) → Member c cs
      → (d : ReconciliationDecision) × Member d ds × IsOn c d
  unfolding classify_all
  classify_all-covers [] ds h c m = absurd (m tt)
  classify_all-covers (x ∷ xs) ds h c m =
      let (y, first, rest) = >>=-eq-ok (classify_present x (lookup x.item_id baseline)) _ h in
      let (ys, more, last) = >>=-eq-ok (classify_all baseline xs) _ rest in
      elim m [
        | inl e ↦ (
          y,
          rw (← (ok_injective last)) (inl refl),
          subst (λ z. IsOn z y) (sym e)
              (classify_present-IsOn x (lookup x.item_id baseline) y first),
        )
        | inr k ↦
            let (d, n, on) = classify_all-covers xs ys more c k in
            (d, rw (← (ok_injective last)) (inr n), on)
      ]

keys-absent :
    (ps : List PreviousInventoryItem)
    → map decision_key (map absent_decision ps) ≡ map previous_key ps
keys-absent [] = refl
keys-absent (p ∷ ps) = ap (◌∷◌ p.item_id) (keys-absent ps)

Distinct_if :
    (complete : Bool) (ds : List ReconciliationDecision)
    → Distinct (map decision_key ds)
    → Distinct (map decision_key (if not complete then [] else ds))
Distinct_if true ds u = u
Distinct_if false ds u = tt

Member-whole :
    (complete : Bool) (d : ReconciliationDecision) (ds : List ReconciliationDecision)
    → complete ≡ true
    → Member d ds
    → Member d (if not complete then [] else ds)
Member-whole true d ds h m = m
Member-whole false d ds h m = ground arith

module _ (inventory : SourceInventory) (previous : List PreviousInventoryItem) where
  absents-Distinct :
      Distinct (map previous_key previous)
      → Distinct
          (map decision_key (absent_decisions inventory (map item_key inventory.items) previous))
  unfolding absent_decisions
  absents-Distinct u =
      let ids = map item_key inventory.items in
      Distinct_if inventory.coverage.complete _ (
        subst Distinct (sym (keys-absent (filter (is_omitted inventory ids) previous)))
          (filter-Distinct previous_key (is_omitted inventory ids) previous u))

  -- Every item of the inventory has a decision, in which it is the current item.
  pub reconcile-covers_current :
      (r : ReconciliationResult)
      → reconcile_inventory inventory previous ≡ ok r
      → (c : InventoryItem) → Member c inventory.items
      → (d : ReconciliationDecision) × Member d r.decisions × IsOn c d
  reconcile-covers_current r h c m =
      let k = reconcile-Reconciled inventory previous r h in
      let (d, n, on) =
        classify_all-covers (index previous_key previous) (sort item_leb inventory.items)
          k.decisions k.classified c ((Member-sort item_leb c inventory.items).1 m) in
      (
        d,
        subst (λ x. Member d x.decisions) k.result
            ((Member-sort decision_leb d _).1 ((Member-append d k.decisions _).1 (inl n))),
        on,
      )

  -- Every previous item that a complete inventory covers and omits is decided to be absent.
  pub reconcile-covers_omitted :
      (r : ReconciliationResult)
      → reconcile_inventory inventory previous ≡ ok r
      → inventory.coverage.complete ≡ true
      → (p : PreviousInventoryItem) → Member p previous
      → coverage_contains inventory.coverage p.source_path ≡ true
      → contains (map item_key inventory.items) p.item_id ≡ false
      → Member (absent_decision p) r.decisions
  unfolding absent_decisions
  reconcile-covers_omitted r h whole p m covered omitted =
      let k = reconcile-Reconciled inventory previous r h in
      let ids = map item_key inventory.items in
      let kept = (Member-filter (is_omitted inventory ids) p previous).1 (m, ground arith) in
      subst (λ x. Member (absent_decision p) x.decisions) k.result
        ((Member-sort decision_leb (absent_decision p) _).1 (
          (Member-append (absent_decision p) k.decisions _).1 (
            inr (
              Member-whole inventory.coverage.complete (absent_decision p) _ whole
                (Member-map_of absent_decision p _ kept)))))

  -- Where the inventory lists no identifier twice, no item is decided twice.
  pub reconcile-Distinct :
      (r : ReconciliationResult)
      → Distinct (map item_key inventory.items)
      → reconcile_inventory inventory previous ≡ ok r
      → Distinct (map decision_key r.decisions)
  reconcile-Distinct r u h =
      let k = reconcile-Reconciled inventory previous r h in
      let ids = map item_key inventory.items in
      let absents = absent_decisions inventory ids previous in
      let keys =
        classify_all-keys (index previous_key previous) (sort item_leb inventory.items) k.decisions
          k.classified in
      subst (λ x. Distinct (map decision_key x.decisions)) k.result
        (sort-Distinct decision_key decision_leb (k.decisions ++ absents) (
          subst Distinct (sym (map-append decision_key k.decisions absents)) (
            append-Distinct (map decision_key k.decisions) (map decision_key absents)
              (subst Distinct (sym keys) (sort-Distinct item_key item_leb inventory.items u))
              (absents-Distinct k.baseline)
              (λ a m.
                let (d, n, e) = Member-map decision_key a absents m in
                let gone = absent-IsGone inventory previous d n in
                ap (λ l. contains l a) keys
                ∙ contains-map-sort item_key item_leb a inventory.items
                ∙ ap (contains ids) (e ∙ ap decision_key gone.decided)
                ∙ gone.omitted))))
