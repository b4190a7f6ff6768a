-- ===== src/Tests/Reconciliations.antt =====
-- A complete inventory of two items against a baseline of two.
use efloud.Prelude.{
  String, string_eq, true, List, [], ◌∷◌, Option, none, some, ◌≡◌, refl, inl, inr, map, Distinct,
  Member,
}
use efloud.Prelude.Sort
use efloud.Prelude.Sort.{sort}
use efloud.Prelude.Dict
use efloud.Prelude.Keyed.{index, index_onto}
use efloud.Prelude.Text.{str_leb}
use efloud.Errors.{ok}
use efloud.Json.{end}
use efloud.Inventory.{
  InventoryItem, SourceInventory, ChangeToken, strong, coverage_contains, equivalent_to,
}
use efloud.Reconciliation.{
  PreviousInventoryItem, ReconciliationDecision, ReconciliationResult, new, unchanged,
  present_decision, absent_decision, reconcile_inventory, previous_map, classify_present,
  classify_all, absent_decisions, decision_key,
}
use efloud.Prelude.{◌↔◌}
use efloud.Reconciliation.{previous_key}
use efloud.Reconciliation.Returns.{IsOk, Agree, reconcile-IsOk_iff}
use efloud.Reconciliation.Decisions.{IsDecision, decisions-IsDecision}
use efloud.Reconciliation.Complete.{
  IsOn, reconcile-covers_current, reconcile-covers_omitted, reconcile-Distinct,
}

abbrev token : String → Option ChangeToken
token v = some (record { kind = "etag"; value = v; reliability = strong })

abbrev item : String → String → InventoryItem
item id v = record {
  item_id = id;
  artifact_key = id;
  locator = none;
  source_path = none;
  change_token = token v;
  expected_integrity = [];
  metadata = end;
}

abbrev known : String → String → PreviousInventoryItem
known id v = record {
  item_id = id;
  artifact_key = id;
  content_id = some "sha256:aa";
  source_path = none;
  change_token = token v;
  metadata = end;
}

abbrev inventory : SourceInventory
inventory = record {
  source_id = "s";
  observed_at = 3;
  coverage = record { scope = []; complete = true };
  items = item "y" "1" ∷ item "x" "1" ∷ [];
  upstream_identity = none;
  metadata = end;
}

abbrev baseline : List PreviousInventoryItem
baseline = known "y" "1" ∷ known "w" "1" ∷ []

abbrev reconciled : ReconciliationResult
reconciled = record {
  inventory = inventory;
  decisions =
      absent_decision (known "w" "1")
      ∷ present_decision new (item "x" "1") none
      ∷ present_decision unchanged (item "y" "1") (some (known "y" "1"))
      ∷ [];
}

reconciled_eq : reconcile_inventory inventory baseline ≡ ok reconciled
unfolding reconcile_inventory previous_map classify_all classify_present absent_decisions index
    index_onto Dict.insert Dict.lookup sort Sort.insert str_leb coverage_contains equivalent_to
reconciled_eq = refl

decisions-IsDecision_example : IsDecision inventory baseline (absent_decision (known "w" "1"))
decisions-IsDecision_example =
    decisions-IsDecision inventory baseline reconciled reconciled_eq
      (absent_decision (known "w" "1")) (inl refl)

reconcile-covers_current_example :
    (d : ReconciliationDecision) × Member d reconciled.decisions × IsOn (item "y" "1") d
reconcile-covers_current_example =
    reconcile-covers_current inventory baseline reconciled reconciled_eq (item "y" "1") (inl refl)

covered : coverage_contains inventory.coverage none ≡ true
unfolding coverage_contains
covered = refl

reconcile-covers_omitted_example : Member (absent_decision (known "w" "1")) reconciled.decisions
reconcile-covers_omitted_example =
    reconcile-covers_omitted inventory baseline reconciled reconciled_eq refl (known "w" "1")
      (inr (inl refl)) covered refl

reconcile-Distinct_example : Distinct (map decision_key reconciled.decisions)
reconcile-Distinct_example =
    reconcile-Distinct inventory baseline reconciled (refl, (refl, tt)) reconciled_eq

reconcile-IsOk_iff_example :
    IsOk (reconcile_inventory inventory baseline)
    ↔ (Distinct (map previous_key baseline) × Agree inventory.items baseline)
reconcile-IsOk_iff_example = reconcile-IsOk_iff inventory baseline
