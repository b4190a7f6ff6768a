-- ===== src/Inventory.antt =====
-- inventory.py: what a source offers at a time, the evidence of absence, and integrity checks.
pub mod Integrity
pub mod Required
use efloud.Prelude.{
  ℕ, String, ◌<>◌, Bool, true, false, List, [], ◌∷◌, Option, none, some, not, ◌&&◌, ◌||◌, map,
}
use efloud.Prelude.{if◌then◌else◌, ◌==◌, string_eq, any, distinct}
use efloud.Prelude.Paths.{strip_slash}
use text.Mathlib.Text.{starts_with}
use efloud.Errors.{Result, ok, raise, Fault}
use efloud.Json.{JsonObject}
use efloud.Models.{SourceId, ArtifactKey}

pub record InventoryCoverage : Type 0 where
  pub scope : List String
  pub complete : Bool

-- The path is the item of the scope, or lies below it.
abbrev pub lies_under : String → String → Bool
lies_under path item = path == strip_slash item || starts_with path (strip_slash item <> "/")

-- `InventoryCoverage.contains`; an empty scope is the whole source.
unfoldable pub coverage_contains : InventoryCoverage → Option String → Bool
coverage_contains coverage source_path = elim coverage.scope [
  | [] ↦ true
  | item ∷ items ↦ elim source_path [
    | none ↦ false
    | some path ↦ any (lies_under (strip_slash path)) (item ∷ items)
  ]
]

pub data Reliability : Type 0 where
  weak strong : Reliability

abbrev pub is_strong : Reliability → Bool
is_strong weak = false
is_strong strong = true

pub record ChangeToken : Type 0 where
  pub kind : String
  pub value : String
  pub reliability : Reliability

-- `ChangeToken.equivalent_to`
unfoldable pub equivalent_to : ChangeToken → Option ChangeToken → Bool
equivalent_to t none = false
equivalent_to t (some u) =
    is_strong t.reliability && is_strong u.reliability && t.kind == u.kind && t.value == u.value

pub record IntegrityExpectation : Type 0 where
  pub algorithm : String
  pub digest : String
  pub required : Bool
  pub metadata : JsonObject

pub record InventoryItem : Type 0 where
  pub item_id : String
  pub artifact_key : ArtifactKey
  pub locator : Option String
  pub source_path : Option String
  pub change_token : Option ChangeToken
  pub expected_integrity : List IntegrityExpectation
  pub metadata : JsonObject

pub record SourceInventory : Type 0 where
  pub source_id : SourceId
  pub observed_at : ℕ
  pub coverage : InventoryCoverage
  pub items : List InventoryItem
  pub upstream_identity : Option String
  pub metadata : JsonObject

abbrev pub item_key : InventoryItem → String
item_key item = item.item_id

abbrev pub item_artifact : InventoryItem → ArtifactKey
item_artifact item = item.artifact_key

-- `item.source_path is not None and not coverage.contains(item.source_path)`
abbrev pub is_outside : InventoryCoverage → InventoryItem → Bool
is_outside coverage item = elim item.source_path [
  | none ↦ false
  | some path ↦ not (coverage_contains coverage (some path))
]

-- `SourceInventory.__post_init__`
unfoldable pub source_inventory : SourceInventory → Result SourceInventory
source_inventory inventory =
    if not (distinct (map item_key inventory.items))
    then raise Fault.duplicate_items
    else if not (distinct (map item_artifact inventory.items))
    then raise Fault.duplicate_artifacts
    else if any (is_outside inventory.coverage) inventory.items
    then raise Fault.outside_coverage
    else ok inventory

pub data AbsenceEvidenceKind : Type 0 where
  complete_inventory direct_negative : AbsenceEvidenceKind

pub record AbsenceEvidence : Type 0 where
  pub kind : AbsenceEvidenceKind
  pub source_id : SourceId
  pub observed_at : ℕ
  pub source_path : Option String
  pub locator : Option String
  pub coverage : Option InventoryCoverage
  pub metadata : JsonObject

-- The part of `AbsenceEvidence.__post_init__` for evidence from an inventory.
abbrev pub check_coverage : AbsenceEvidence → Option InventoryCoverage → Result AbsenceEvidence
check_coverage e none = raise Fault.absence_incomplete
check_coverage e (some coverage) =
    if not coverage.complete
    then raise Fault.absence_incomplete
    else if not (coverage_contains coverage e.source_path)
    then raise Fault.absence_uncovered
    else ok e

-- The part for a direct negative: an exact target is named.
abbrev pub check_target : AbsenceEvidence → Option String → Option String → Result AbsenceEvidence
check_target e none none = raise Fault.absence_unlocated
check_target e _ _ = ok e

-- `AbsenceEvidence.__post_init__`
unfoldable pub absence_evidence : AbsenceEvidence → Result AbsenceEvidence
absence_evidence e = elim e.kind [
  | complete_inventory ↦ check_coverage e e.coverage
  | direct_negative ↦ check_target e e.locator e.source_path
]

-- `AbsenceEvidence.from_inventory`
unfoldable pub absence_from_inventory :
    SourceInventory → Option String → Option String → JsonObject → Result AbsenceEvidence
unfolding absence_evidence
absence_from_inventory inventory source_path locator metadata = absence_evidence (record {
  kind = complete_inventory;
  source_id = inventory.source_id;
  observed_at = inventory.observed_at;
  source_path = source_path;
  locator = locator;
  coverage = some inventory.coverage;
  metadata = metadata;
})

-- `AbsenceEvidence.direct_negative`
unfoldable pub absence_direct_negative :
    SourceId → ℕ → Option String → Option String → JsonObject → Result AbsenceEvidence
unfolding absence_evidence
absence_direct_negative source_id observed_at source_path locator metadata =
    absence_evidence (record {
      kind = direct_negative;
      source_id = source_id;
      observed_at = observed_at;
      source_path = source_path;
      locator = locator;
      coverage = none;
      metadata = metadata;
    })
