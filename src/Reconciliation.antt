-- ===== src/Reconciliation.antt =====
-- reconciliation.py: a source's inventory against the repository's baseline.
pub mod Decisions
pub mod Complete
pub mod Returns
use efloud.Prelude.{
  String, Bool, true, false, List, [], ◌∷◌, ◌++◌, Option, none, some, not, ◌&&◌, map,
}
use efloud.Prelude.{if◌then◌else◌, ◌==◌, string_eq, distinct, contains, filter, length, ℕ, max_by}
use efloud.Prelude.Sort.{sort, text_pair_leb}
use efloud.Prelude.Text.{str_leb}
use efloud.Prelude.Dict
use efloud.Prelude.Dict.{Dict, lookup}
use efloud.Prelude.Keyed.{index}
use efloud.Errors.{Result, ok, raise, Fault, ◌>>=◌}
use efloud.Json.{JsonObject}
use efloud.Models.{ArtifactKey, ContentId}
use efloud.Inventory.{
  ChangeToken, InventoryItem, SourceInventory, item_key, equivalent_to, coverage_contains,
}

pub data ReconciliationState : Type 0 where
  new changed unchanged absent : ReconciliationState

-- The spelling of a state, by which decisions are ordered.
abbrev pub state_name : ReconciliationState → String
state_name new = "new"
state_name changed = "changed"
state_name unchanged = "unchanged"
state_name absent = "absent"

pub record PreviousInventoryItem : Type 0 where
  pub item_id : String
  pub artifact_key : ArtifactKey
  pub content_id : Option ContentId
  pub source_path : Option String
  pub change_token : Option ChangeToken
  pub metadata : JsonObject

-- The `reason` of a decision is a fixed text for each branch and is left out.
pub record ReconciliationDecision : Type 0 where
  pub state : ReconciliationState
  pub item_id : String
  pub artifact_key : ArtifactKey
  pub current : Option InventoryItem
  pub previous : Option PreviousInventoryItem

pub record ReconciliationResult : Type 0 where
  pub inventory : SourceInventory
  pub decisions : List ReconciliationDecision

abbrev pub previous_key : PreviousInventoryItem → String
previous_key item = item.item_id

abbrev pub decision_key : ReconciliationDecision → String
decision_key d = d.item_id

-- `_previous_map`
unfoldable pub previous_map :
    List PreviousInventoryItem → Result (Dict String PreviousInventoryItem)
previous_map items =
    if not (distinct (map previous_key items))
    then raise Fault.duplicate_baseline
    else ok (index previous_key items)

abbrev pub present_decision :
    ReconciliationState → InventoryItem → Option PreviousInventoryItem → ReconciliationDecision
present_decision state current previous = record {
  state = state;
  item_id = current.item_id;
  artifact_key = current.artifact_key;
  current = some current;
  previous = previous;
}

-- `current.change_token is not None and current.change_token.equivalent_to(previous.change_token)`
abbrev pub tokens_match : Option ChangeToken → Option ChangeToken → Bool
tokens_match none previous = false
tokens_match (some token) previous = equivalent_to token previous

-- `_classify_present`
unfoldable pub classify_present :
    InventoryItem → Option PreviousInventoryItem → Result ReconciliationDecision
classify_present current none = ok (present_decision new current none)
classify_present current (some previous) =
    if not (previous.artifact_key == current.artifact_key)
    then raise Fault.identity_changed
    else if tokens_match current.change_token previous.change_token
    then ok (present_decision unchanged current (some previous))
    else ok (present_decision changed current (some previous))

abbrev pub absent_decision : PreviousInventoryItem → ReconciliationDecision
absent_decision previous = record {
  state = absent;
  item_id = previous.item_id;
  artifact_key = previous.artifact_key;
  current = none;
  previous = some previous;
}

-- Whether the loop of `_absent_decisions` comes to a decision on a previous item.
abbrev pub is_omitted : SourceInventory → List String → PreviousInventoryItem → Bool
is_omitted inventory current_ids previous =
    not (contains current_ids previous.item_id)
    && coverage_contains inventory.coverage previous.source_path

-- `_absent_decisions`
unfoldable pub absent_decisions :
    SourceInventory → List String → List PreviousInventoryItem → List ReconciliationDecision
absent_decisions inventory current_ids previous_items =
    if not inventory.coverage.complete
    then []
    else map absent_decision (filter (is_omitted inventory current_ids) previous_items)

-- The decisions on the current items, in the order of their identifiers.
unfoldable pub classify_all :
    Dict String PreviousInventoryItem → List InventoryItem → Result (List ReconciliationDecision)
classify_all previous_by_id [] = ok []
classify_all previous_by_id (current ∷ items) = do
  decision ← classify_present current (lookup current.item_id previous_by_id)
  decisions ← classify_all previous_by_id items
  ok (decision ∷ decisions)

abbrev pub item_leb : InventoryItem → InventoryItem → Bool
item_leb a b = str_leb a.item_id b.item_id

-- `(decision.item_id, decision.state)`
abbrev pub decision_stamp : ReconciliationDecision → String × String
decision_stamp d = (d.item_id, state_name d.state)

abbrev pub decision_leb : ReconciliationDecision → ReconciliationDecision → Bool
decision_leb a b = text_pair_leb (decision_stamp a) (decision_stamp b)

unfoldable pub reconcile_inventory :
    SourceInventory → List PreviousInventoryItem → Result ReconciliationResult
reconcile_inventory inventory previous_items = do
  previous_by_id ← previous_map previous_items
  decisions ← classify_all previous_by_id (sort item_leb inventory.items)
  let current_ids = map item_key inventory.items
  let absents = absent_decisions inventory current_ids previous_items
  ok (record { inventory = inventory; decisions = sort decision_leb (decisions ++ absents) })

-- `by_state`
abbrev pub has_state : ReconciliationState → ReconciliationDecision → Bool
has_state state d = state_name d.state == state_name state

unfoldable pub by_state : ReconciliationState → ReconciliationResult → List ReconciliationDecision
by_state state r = filter (has_state state) r.decisions

-- The first decision on the item, if there is one.
abbrev pub first_for : String → List ReconciliationDecision → Option ReconciliationDecision
first_for item_id [] = none
first_for item_id (d ∷ ds) = if d.item_id == item_id then some d else first_for item_id ds

unfoldable pub decision_for : String → ReconciliationResult → Option ReconciliationDecision
decision_for item_id r = first_for item_id r.decisions

-- `counts`: how many decisions are new, changed, unchanged and absent.
unfoldable pub counts : ReconciliationResult → ℕ × ℕ × ℕ × ℕ
counts r = (
  length (by_state new r),
  length (by_state changed r),
  length (by_state unchanged r),
  length (by_state absent r),
)
