-- ===== src/Reconciliation/Decisions.antt =====
-- What each decision of `reconcile_inventory` rests on.
use mathlib.Core.Path.{subst}
use efloud.Prelude.{
  String, Bool, true, false, List, [], ◌∷◌, ◌++◌, none, some, not, map, ◌≡◌, refl, sym, arith, inl,
  inr, ◌⊎◌,
}
use efloud.Prelude.{
  if◌then◌else◌, string_eq, distinct, distinct_iff, Distinct, contains, Member, Member-filter,
  Member-append, Member-map, Bool-cases, Option-cases,
}
use efloud.Prelude.Sort.{sort, Member-sort}
use efloud.Prelude.Dict.{Dict, lookup}
use efloud.Prelude.Keyed.{index}
use efloud.Prelude.Indexed.{lookup-index_sound, lookup-index-none}
use efloud.Errors.{ok, >>=-eq-ok, ok_injective}
use efloud.Inventory.{InventoryItem, SourceInventory, item_key, coverage_contains}
use efloud.Reconciliation.{
  new, changed, unchanged, PreviousInventoryItem, ReconciliationDecision, ReconciliationResult,
  previous_key, previous_map, present_decision, tokens_match, classify_present, absent_decision,
  is_omitted, absent_decisions, classify_all, item_leb, decision_leb, reconcile_inventory,
}

-- The decision on a current item: new if nothing was known of it, and otherwise by the tokens.
pub data IsPresent (inventory : SourceInventory) (previous : List PreviousInventoryItem)
    (d : ReconciliationDecision) : Type 0 where
  unknown :
      (c : InventoryItem)
      → Member c inventory.items
      → ((p : PreviousInventoryItem) → Member p previous → ¬ (p.item_id ≡ c.item_id))
      → d ≡ present_decision new c none
      → IsPresent inventory previous d
  known :
      (c : InventoryItem) (p : PreviousInventoryItem)
      → Member c inventory.items
      → Member p previous
      → p.item_id ≡ c.item_id
      → p.artifact_key ≡ c.artifact_key
      → d
        ≡ present_decision
            (if tokens_match c.change_token p.change_token then unchanged else changed)
            c
            (some p)
      → IsPresent inventory previous d

-- The decision on a previous item that a complete inventory covers and does not list.
pub record IsGone (inventory : SourceInventory) (previous : List PreviousInventoryItem)
    (d : ReconciliationDecision) : Type 0 where
  pub item : PreviousInventoryItem
  pub listed : Member item previous
  pub decided : d ≡ absent_decision item
  pub complete : inventory.coverage.complete ≡ true
  pub covered : coverage_contains inventory.coverage item.source_path ≡ true
  pub omitted : contains (map item_key inventory.items) item.item_id ≡ false

abbrev pub IsDecision :
    SourceInventory → List PreviousInventoryItem → ReconciliationDecision → Type 0
IsDecision inventory previous d = IsPresent inventory previous d ⊎ IsGone inventory previous d

-- The steps of a reconciliation that succeeds.
pub record Reconciled (inventory : SourceInventory) (previous : List PreviousInventoryItem)
    (r : ReconciliationResult) : Type 0 where
  pub baseline : Distinct (map previous_key previous)
  pub decisions : List ReconciliationDecision
  pub classified :
      classify_all (index previous_key previous) (sort item_leb inventory.items) ≡ ok decisions
  pub result :
      record {
        inventory = inventory;
        decisions =
            sort decision_leb
              (decisions ++ absent_decisions inventory (map item_key inventory.items) previous);
      }
      ≡ r

previous_map_lem :
    (previous : List PreviousInventoryItem) (m : Dict String PreviousInventoryItem)
    → previous_map previous ≡ ok m
    → Distinct (map previous_key previous) × (index previous_key previous ≡ m)
unfolding previous_map
previous_map_lem previous m h = elim (Bool-cases (distinct (map previous_key previous))) [
  | inl u ↦
      ((distinct_iff (map previous_key previous)).0 u, ok_injective (rw (u, previous_map) at h))
  | inr n ↦ absurd (ground arith)
]

pub Member-if :
    (complete : Bool) (ds : List ReconciliationDecision) (d : ReconciliationDecision)
    → Member d (if not complete then [] else ds)
    → (complete ≡ true) × Member d ds
Member-if true ds d m = (refl, m)
Member-if false ds d m = absurd (m tt)

module _ (inventory : SourceInventory) (previous : List PreviousInventoryItem) where
  pub reconcile-Reconciled :
      (r : ReconciliationResult)
      → reconcile_inventory inventory previous ≡ ok r
      → Reconciled inventory previous r
  unfolding reconcile_inventory
  reconcile-Reconciled r h =
      let (m, mapped, rest) = >>=-eq-ok (previous_map previous) _ h in
      let (u, e) = previous_map_lem previous m mapped in
      let (ds, classified, last) =
        >>=-eq-ok (classify_all m (sort item_leb inventory.items)) _ rest in
      record {
        baseline = u;
        decisions = ds;
        classified =
            subst (λ d. classify_all d (sort item_leb inventory.items) ≡ ok ds) (sym e) classified;
        result = ok_injective last;
      }

  classify_present-IsPresent :
      (c : InventoryItem) (d : ReconciliationDecision)
      → Member c inventory.items
      → Distinct (map previous_key previous)
      → classify_present c (lookup c.item_id (index previous_key previous)) ≡ ok d
      → IsPresent inventory previous d
  unfolding classify_present
  classify_present-IsPresent c d m u h =
      elim (Option-cases (lookup c.item_id (index previous_key previous))) [
        | inl e ↦
            unknown c m (λ p k. lookup-index-none previous_key c.item_id p previous u e k)
              (sym (ok_injective (rw (e, classify_present) at h)))
        | inr (p, e) ↦
            let s = lookup-index_sound previous_key c.item_id p previous u e in
            known c p m s.0 s.1 (ground (arith, string_eq.beq_iff p.artifact_key c.artifact_key))
              (ground arith)
      ]

  classify_all-IsPresent :
      (cs : List InventoryItem) (ds : List ReconciliationDecision)
      → ((c : InventoryItem) → Member c cs → Member c inventory.items)
      → Distinct (map previous_key previous)
      → classify_all (index previous_key previous) cs ≡ ok ds
      → (d : ReconciliationDecision) → Member d ds
      → IsPresent inventory previous d
  unfolding classify_all
  classify_all-IsPresent [] ds sub u h d m = absurd (subst (Member d) (sym (ok_injective h)) m tt)
  classify_all-IsPresent (c ∷ cs) ds sub u h d m =
      let (x, first, rest) =
        >>=-eq-ok (classify_present c (lookup c.item_id (index previous_key previous))) _ h in
      let (xs, more, last) = >>=-eq-ok (classify_all (index previous_key previous) cs) _ rest in
      elim (subst (Member d) (sym (ok_injective last)) m) [
        | inl e ↦
            subst (IsPresent inventory previous) (sym e)
              (classify_present-IsPresent c x (sub c (inl refl)) u first)
        | inr k ↦ classify_all-IsPresent cs xs (λ y n. sub y (inr n)) u more d k
      ]

  pub absent-IsGone :
      (d : ReconciliationDecision)
      → Member d (absent_decisions inventory (map item_key inventory.items) previous)
      → IsGone inventory previous d
  unfolding absent_decisions
  absent-IsGone d m =
      let (whole, kept) = Member-if inventory.coverage.complete _ d m in
      let (p, n, e) = Member-map absent_decision d _ kept in
      let k =
        (Member-filter (is_omitted inventory (map item_key inventory.items)) p previous).0 n in
      record {
        item = p;
        listed = k.0;
        decided = e;
        complete = whole;
        covered = ground arith;
        omitted = ground arith;
      }

  -- Each decision of a reconciliation is on a current item, and right for what the baseline says
  -- of it, or on a previous item that a complete inventory covers and omits.
  pub decisions-IsDecision :
      (r : ReconciliationResult)
      → reconcile_inventory inventory previous ≡ ok r
      → (d : ReconciliationDecision) → Member d r.decisions
      → IsDecision inventory previous d
  decisions-IsDecision r h d m =
      let k = reconcile-Reconciled r h in
      let listed =
        (Member-append d k.decisions _).0
          ((Member-sort decision_leb d _).0 (subst (λ x. Member d x.decisions) (sym k.result) m)) in
      elim listed [
        | inl here ↦ inl (
            classify_all-IsPresent (sort item_leb inventory.items) k.decisions
              (λ c n. (Member-sort item_leb c inventory.items).0 n) k.baseline k.classified d here)
        | inr there ↦ inr (absent-IsGone d there)
      ]
