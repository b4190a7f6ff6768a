-- ===== src/Executor/Operation.antt =====
-- One operation of a plan: it is started, attempted and finished, or it is blocked.
use efloud.Prelude.{String, ◌<>◌, Bool, true, false, List, [], ◌∷◌, Option, none, some}
use efloud.Prelude.{if◌then◌else◌, ◌==◌, string_eq}
use efloud.Errors.{ok, Fault}
use efloud.Json.{JsonObject, str, end, field, put, put_some, string_array}
use efloud.Models.{RunId, OperationId, ObservationId, partition_colon}
use efloud.Planning.{PlannedOperation, source, derived, SyncPlan, refresh_option, refresh_to_dict}
use efloud.Executor.Store.{
  Exec, return, throw, ◌>>=◌, RecordedStatus, Attempt, recorded, raised, interrupted, Services,
}

pub data ExecutionStatus : Type 0 where
  not_executed succeeded failed cancelled blocked : ExecutionStatus

pub record OperationExecutionResult : Type 0 where
  pub operation_key : String
  pub status : ExecutionStatus
  pub observation_ids : List ObservationId
  pub details : JsonObject

-- What the executor reads of a configured source; `collection` is `isinstance(_, CollectionSource)`.
pub record Source : Type 0 where
  pub id : String
  pub adapter_id : String
  pub collection : Bool
  pub definition : JsonObject

abbrev pub is_succeeded : ExecutionStatus → Bool
is_succeeded succeeded = true
is_succeeded _ = false

abbrev pub is_blocked : ExecutionStatus → Bool
is_blocked blocked = true
is_blocked _ = false

abbrev pub status_of : RecordedStatus → ExecutionStatus
status_of RecordedStatus.succeeded = succeeded
status_of RecordedStatus.failed = failed

abbrev pub status_text : RecordedStatus → String
status_text RecordedStatus.succeeded = "succeeded"
status_text RecordedStatus.failed = "failed"

-- `_source_by_id`: the first source with the identifier.
abbrev pub source_by_id : List Source → String → Option Source
source_by_id [] source_id = none
source_by_id (s ∷ ss) source_id = if s.id == source_id then some s else source_by_id ss source_id

-- `text.rpartition(":")[2]`: what stands after the last colon.
unfoldable pub after_last_colon : String → String
unfolding partition_colon
after_last_colon String.[] = ""
after_last_colon (String.◌∷◌ c s) =
    let rest = after_last_colon s in
    elim (partition_colon s) [
      | some _ ↦ rest
      | none ↦ if String.◌∷◌ c String.[] == ":" then s else String.◌∷◌ c s
    ]

abbrev pub or_source : String → String
or_source kind = if kind == "" then "source" else kind

abbrev pub source_kind : Option Source → String
source_kind none = "source"
source_kind (some s) =
    if s.collection then "collection" else or_source (after_last_colon s.adapter_id)

-- `_operation_kind`
unfoldable pub operation_kind : PlannedOperation → Option Source → String
unfolding after_last_colon
operation_kind o s = elim o.kind [ derived ↦ "derived" | source ↦ source_kind s ]

-- `_operation_parameters`
unfoldable pub operation_parameters : SyncPlan → PlannedOperation → JsonObject
unfolding refresh_to_dict
operation_parameters plan o = put_some "refresh" (refresh_option o.refresh) (
    put "scope" (string_array o.scope) (
      put "dependencies" (string_array o.dependencies) (
        put "plan_operation_key" (str o.operation_key)
          (put "plan_id" (str plan.plan_id) o.parameters))))

abbrev pub error_details : String → JsonObject
error_details text = field "error" (str text) end

abbrev pub blocked_details : List String → JsonObject
blocked_details failed_dependencies =
    field "error" (str "operation blocked by unsuccessful dependencies")
      (field "failed_dependencies" (string_array failed_dependencies) end)

-- `_ExecutionContext`, without the services.
pub record ExecutionContext : Type 0 where
  pub sources : List Source
  pub plan : SyncPlan
  pub run_id : RunId

module _ {S : Type 0} (services : Services S) (context : ExecutionContext) where
  abbrev pub start_with : PlannedOperation → Option Source → Exec S OperationId
  start_with o s = services.start_operation (record {
    run_id = context.run_id;
    source_id = o.source_id;
    kind = operation_kind o s;
    subject = o.subject;
    producer = o.producer;
    parameters = operation_parameters context.plan o;
  })

  abbrev pub start_configured : PlannedOperation → Option Source → Exec S OperationId
  start_configured o none = throw Fault.source_not_configured
  start_configured o (some s) = start_with o (some s)

  -- `_start_operation`
  unfoldable pub start_operation : PlannedOperation → Exec S OperationId
  start_operation o = elim o.source_id [
    | none ↦ start_with o none
    | some source_id ↦ start_configured o (source_by_id context.sources source_id)
  ]

  -- `_source_result`; that the source is configured was seen when the operation was started.
  unfoldable pub source_result : PlannedOperation → OperationId → S → Attempt × S
  source_result o id s = elim o.source_id [
    | none ↦
        (recorded RecordedStatus.failed [] (error_details "Source operation has no source_id."), s)
    | some source_id ↦ elim (source_by_id context.sources source_id) [
      | none ↦ (raised "KeyError", s)
      | some configured ↦
          if services.has_adapter configured.adapter_id then services.acquire o id s else (
            recorded RecordedStatus.failed []
                (error_details ("No adapter registered for " <> configured.adapter_id <> ".")),
            s,
          )
    ]
  ]

  -- `_recorded_result`
  unfoldable pub recorded_result : PlannedOperation → OperationId → S → Attempt × S
  unfolding source_result
  recorded_result o id s = elim o.kind [
    | source ↦ source_result o id s
    | derived ↦ if services.has_task o.subject then services.derive o id s else (
      recorded RecordedStatus.failed [] (error_details ("Unknown derived task: " <> o.subject)),
      s,
    )
  ]

  -- What `_execute_operation` does with the attempt.
  unfoldable pub conclude :
      PlannedOperation → OperationId → Attempt → Exec S OperationExecutionResult
  conclude o id (recorded status observation_ids details) = do
    done ← services.finish_operation id (status_text status) details
    return (record {
      operation_key = o.operation_key;
      status = status_of status;
      observation_ids = observation_ids;
      details = details;
    })
  conclude o id (raised text) = do
    done ← services.finish_operation id "failed" (error_details text)
    return (record {
      operation_key = o.operation_key;
      status = failed;
      observation_ids = [];
      details = error_details text;
    })
  conclude o id interrupted = do
    done ← services.finish_operation id "cancelled" (error_details "operation cancelled")
    throw Fault.cancelled

  abbrev pub attempt : PlannedOperation → OperationId → Exec S Attempt
  attempt o id s = let (a, t) = recorded_result o id s in (ok a, t)

  -- `_execute_operation`
  unfoldable pub execute_operation : PlannedOperation → Exec S OperationExecutionResult
  unfolding start_operation recorded_result conclude
  execute_operation o = do id ← start_operation o; a ← attempt o id; conclude o id a

  -- `_blocked_operation`
  unfoldable pub blocked_operation :
      PlannedOperation → List String → Exec S OperationExecutionResult
  unfolding start_operation
  blocked_operation o failed_dependencies = do
    id ← start_operation o
    done ← services.finish_operation id "cancelled" (blocked_details failed_dependencies)
    return (record {
      operation_key = o.operation_key;
      status = blocked;
      observation_ids = [];
      details = blocked_details failed_dependencies;
    })
