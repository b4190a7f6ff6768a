-- ===== src/Planning.antt =====
-- planning.py and the decisions of policy.py: requests, planned operations and plans.
pub mod Identity
use efloud.Prelude.{ℕ, String, Bool, true, false, List, [], ◌∷◌, Option, none, some, map}
use efloud.Prelude.{if◌then◌else◌, ◌==◌, ltb, string_eq, contains, unique}
use efloud.Prelude.Sort.{sort}
use efloud.Prelude.Text.{str_leb}
use efloud.Errors.{Result, ok, raise, Fault, ◌>>=◌}
use efloud.Json.{
  Json, JsonObject, bool, int, str, arr, obj, null, end, field, array, put, put_some, string_array,
  or_null, str_option,
}
use efloud.Models.{ProducerRef, producer_to_dict, stable_id}

-- `tuple(sorted(set(values)))`
abbrev pub sorted_set : List String → List String
sorted_set values = sort str_leb (unique values)

-- policy.py; the `reason` is a text for each branch.
pub record RefreshDecision : Type 0 where
  pub refresh : Bool
  pub reason : String
  pub forced : Bool

pub record SyncRequest : Type 0 where
  pub source_ids : Option (List String)
  pub include_derived : Bool
  pub dry_run : Bool
  pub max_concurrency : ℕ
  pub refresh : Bool
  pub refresh_source_ids : List String

abbrev pub sorted_option : Option (List String) → Option (List String)
sorted_option none = none
sorted_option (some ids) = some (sorted_set ids)

-- `SyncRequest.__post_init__`
unfoldable pub sync_request : SyncRequest → Result SyncRequest
sync_request r =
    if ltb r.max_concurrency 1
    then raise Fault.invalid_concurrency
    else ok (record r {
      source_ids = sorted_option r.source_ids;
      refresh_source_ids = sorted_set r.refresh_source_ids;
    })

pub record PlanningDecision : Type 0 where
  pub source_id : String
  pub selected : Bool
  pub reason : String
  pub adapter_id : Option String
  pub adapter_version : Option String
  pub refresh : Option RefreshDecision
  pub scope : List String

pub data PlannedOperationKind : Type 0 where
  source derived : PlannedOperationKind

abbrev pub kind_name : PlannedOperationKind → String
kind_name source = "source"
kind_name derived = "derived"

pub record PlannedOperation : Type 0 where
  pub operation_key : String
  pub kind : PlannedOperationKind
  pub subject : String
  pub producer : ProducerRef
  pub source_id : Option String
  pub dependencies : List String
  pub refresh : Option RefreshDecision
  pub scope : List String
  pub parameters : JsonObject

-- `PlannedOperation.__post_init__`
unfoldable pub planned_operation : PlannedOperation → Result PlannedOperation
planned_operation o =
    let dependencies = sorted_set o.dependencies in
    if contains dependencies o.operation_key
    then raise Fault.depends_on_itself
    else ok (record o { dependencies = dependencies; scope = sorted_set o.scope })

unfoldable pub refresh_to_dict : RefreshDecision → Json
refresh_to_dict d = obj (
    field "refresh" (bool d.refresh)
      (field "reason" (str d.reason) (field "forced" (bool d.forced) end)))

abbrev pub refresh_option : Option RefreshDecision → Option Json
refresh_option none = none
refresh_option (some d) = some (refresh_to_dict d)

abbrev pub source_ids_json : Option (List String) → Json
source_ids_json none = null
source_ids_json (some ids) = string_array ids

unfoldable pub request_to_dict : SyncRequest → Json
request_to_dict r = obj (
    field "source_ids" (source_ids_json r.source_ids) (
      field "include_derived" (bool r.include_derived) (
        field "dry_run" (bool r.dry_run) (
          field "max_concurrency" (int r.max_concurrency) (
            field "refresh" (bool r.refresh)
              (field "refresh_source_ids" (string_array r.refresh_source_ids) end))))))

unfoldable pub decision_to_dict : PlanningDecision → Json
unfolding refresh_to_dict
decision_to_dict d = obj (
    put_some "refresh" (refresh_option d.refresh) (
      put_some "adapter_version" (str_option d.adapter_version) (
        put_some "adapter_id" (str_option d.adapter_id) (
          field "source_id" (str d.source_id) (
            field "selected" (bool d.selected)
              (field "reason" (str d.reason) (field "scope" (string_array d.scope) end)))))))

unfoldable pub operation_to_dict : PlannedOperation → Json
unfolding refresh_to_dict producer_to_dict
operation_to_dict o = obj (
    put_some "refresh" (refresh_option o.refresh) (
      put_some "source_id" (str_option o.source_id) (
        field "operation_key" (str o.operation_key) (
          field "kind" (str (kind_name o.kind)) (
            field "subject" (str o.subject) (
              field "producer" (obj (producer_to_dict o.producer)) (
                field "dependencies" (string_array o.dependencies) (
                  field "scope" (string_array o.scope)
                    (field "parameters" (obj o.parameters) end)))))))))

pub record SyncPlan : Type 0 where
  pub plan_id : String
  pub request : SyncRequest
  pub decisions : List PlanningDecision
  pub operations : List PlannedOperation

abbrev pub operation_key : PlannedOperation → String
operation_key o = o.operation_key

abbrev pub decision_source : PlanningDecision → String
decision_source d = d.source_id

abbrev pub operation_leb : PlannedOperation → PlannedOperation → Bool
operation_leb a b = str_leb a.operation_key b.operation_key

abbrev pub decision_leb : PlanningDecision → PlanningDecision → Bool
decision_leb a b = str_leb a.source_id b.source_id

abbrev pub first_operation : String → List PlannedOperation → Result PlannedOperation
first_operation key [] = raise Fault.unknown_planned_operation
first_operation key (o ∷ os) = if o.operation_key == key then ok o else first_operation key os

-- `SyncPlan.operation`
unfoldable pub plan_operation : String → SyncPlan → Result PlannedOperation
plan_operation key plan = first_operation key plan.operations

unfoldable pub plan_identity : SyncRequest → List PlanningDecision → List PlannedOperation → Json
unfolding request_to_dict decision_to_dict operation_to_dict
plan_identity request decisions operations = obj (
    field "request" (request_to_dict request) (
      field "decisions" (arr (array (map decision_to_dict decisions)))
        (field "operations" (arr (array (map operation_to_dict operations))) end)))

unfoldable pub make_sync_plan :
    (Json → String) → SyncRequest → List PlanningDecision → List PlannedOperation → SyncPlan
unfolding plan_identity
make_sync_plan digest request decisions operations =
    let canonical_decisions = sort decision_leb decisions in
    let canonical_operations = sort operation_leb operations in
    record {
      plan_id =
          stable_id digest "plan" (plan_identity request canonical_decisions canonical_operations);
      request = request;
      decisions = canonical_decisions;
      operations = canonical_operations;
    }
