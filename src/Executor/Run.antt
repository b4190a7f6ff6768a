-- ===== src/Executor/Run.antt =====
-- `SyncExecutor.execute`: the run around the operations of a plan, and what it reports.
use efloud.Prelude.{
  String, Bool, true, false, List, [], ◌∷◌, Option, none, some, not, map, ◌≡◌, refl, ◌∙◌, arith,
  ◌&&◌, inl, inr,
}
use efloud.Prelude.{if◌then◌else◌, ◌==◌, string_eq, any, all, Bool-cases}
use efloud.Errors.{Result, ok, raise, Fault}
use efloud.Json.{JsonObject, field, str, end}
use efloud.Models.{RunId, OperationId}
use efloud.Planning.{PlannedOperation, SyncPlan, request_to_dict, sorted_set}
use efloud.Executor.Store.{Exec, return, throw, ◌>>=◌, after, Services}
use efloud.Executor.Operation.{
  ExecutionStatus, not_executed, succeeded, failed, cancelled, blocked, OperationExecutionResult,
  Source, is_succeeded, source_by_id, error_details,
}
use efloud.Executor.Waves.{execute_operations}

pub record SyncExecutionResult : Type 0 where
  pub plan_id : String
  pub run_id : Option RunId
  pub operations : List OperationExecutionResult

-- `status in {"failed", "blocked"}`
abbrev pub unsuccessful_status : ExecutionStatus → Bool
unsuccessful_status failed = true
unsuccessful_status blocked = true
unsuccessful_status _ = false

abbrev pub is_unsuccessful : OperationExecutionResult → Bool
is_unsuccessful r = unsuccessful_status r.status

abbrev pub is_success_result : OperationExecutionResult → Bool
is_success_result r = is_succeeded r.status

-- `_run_status`
unfoldable pub run_status : List OperationExecutionResult → String
run_status results =
    let some_failed = any is_unsuccessful results in
    let some_succeeded = any is_success_result results in
    if some_failed && some_succeeded
    then "partial"
    else if some_failed
    then "failed"
    else "succeeded"

-- `status in {"succeeded", "not-executed"}`
abbrev pub fine_status : ExecutionStatus → Bool
fine_status not_executed = true
fine_status succeeded = true
fine_status _ = false

abbrev pub is_fine : OperationExecutionResult → Bool
is_fine r = fine_status r.status

-- `SyncExecutionResult.ok`
unfoldable pub result_ok : SyncExecutionResult → Bool
result_ok r = all is_fine r.operations

abbrev pub not_executed_result : PlannedOperation → OperationExecutionResult
not_executed_result o = record {
  operation_key = o.operation_key;
  status = not_executed;
  observation_ids = [];
  details = end;
}

-- The sources of the operations that have one.
abbrev pub planned_sources : List PlannedOperation → List String
planned_sources [] = []
planned_sources (o ∷ os) =
    let rest = planned_sources os in elim o.source_id [ none ↦ rest | some id ↦ id ∷ rest ]

-- `{"plan_id": ..., "request": ..., "planner": "canonical-v1"}`
abbrev pub run_metadata : SyncPlan → JsonObject
run_metadata plan =
    field "plan_id" (str plan.plan_id)
      (field "request" (request_to_dict plan.request) (field "planner" (str "canonical-v1") end))

abbrev pub is_cancellation : Fault → Bool
is_cancellation Fault.cancelled = true
is_cancellation _ = false

module _ {S : Type 0} (services : Services S) where
  abbrev pub register_found : Option Source → Exec S (Unit {0})
  register_found none = throw Fault.source_not_configured
  register_found (some s) = services.register_source s.id s.definition

  unfoldable pub register_sources : List Source → List String → Exec S (Unit {0})
  register_sources sources [] = return tt
  register_sources sources (id ∷ ids) = do
    done ← register_found (source_by_id sources id)
    register_sources sources ids

  unfoldable pub finish_all : String → JsonObject → List OperationId → Exec S (Unit {0})
  finish_all status details [] = return tt
  finish_all status details (id ∷ ids) = do
    done ← services.finish_operation id status details
    finish_all status details ids

  unfoldable pub close_run :
      String → String → RunId → Fault → List OperationId → Exec S (Option SyncExecutionResult)
  unfolding finish_all
  close_run status text run_id fault running = do
    done ← finish_all status (error_details text) running
    finished ← services.finish_run run_id status
    throw fault

  -- The two `except` clauses: what still runs is finished, then the run, and the exception goes on.
  unfoldable pub abort_run : RunId → Fault → Exec S (Option SyncExecutionResult)
  unfolding close_run
  abort_run run_id fault s =
      let running = services.running_operations run_id s in
      if is_cancellation fault
      then close_run "cancelled" "sync execution cancelled" run_id fault running s
      else close_run "failed" "sync executor aborted" run_id fault running s

  abbrev pub conclude_run :
      SyncPlan
      → RunId
      → Result (Option (List OperationExecutionResult)) × S
      → Result (Option SyncExecutionResult) × S
  conclude_run plan run_id (raise fault, s) = abort_run run_id fault s
  conclude_run plan run_id (ok none, s) = (ok none, s)
  conclude_run plan run_id (ok (some results), s) =
      after (services.finish_run run_id (run_status results) s) (λ done.
        return
          (some (record { plan_id = plan.plan_id; run_id = some run_id; operations = results })))

  -- `execute`; `none` stands for fuel that is used up, which does not happen.
  unfoldable pub execute : List Source → SyncPlan → Exec S (Option SyncExecutionResult)
  unfolding register_sources execute_operations abort_run run_status
  execute sources plan =
      if plan.request.dry_run
      then return (
          some (record {
            plan_id = plan.plan_id;
            run_id = none;
            operations = map not_executed_result plan.operations;
          }))
      else do
        let ids = sorted_set (planned_sources plan.operations)
        registered ← register_sources sources ids
        run_id ← services.start_run ids (run_metadata plan)
        λ s. conclude_run plan run_id (
            execute_operations services (record { sources = sources; plan = plan; run_id = run_id })
              s)

abbrev pub cancelled_status : ExecutionStatus → Bool
cancelled_status cancelled = true
cancelled_status _ = false

abbrev pub is_cancelled : OperationExecutionResult → Bool
is_cancelled r = cancelled_status r.status

fine_or_unsuccessful :
    (s : ExecutionStatus) → cancelled_status s ≡ false → fine_status s ≡ not (unsuccessful_status s)
fine_or_unsuccessful not_executed h = refl
fine_or_unsuccessful succeeded h = refl
fine_or_unsuccessful failed h = refl
fine_or_unsuccessful cancelled h = ground arith
fine_or_unsuccessful blocked h = refl

all_fine :
    (rs : List OperationExecutionResult)
    → any is_cancelled rs ≡ false
    → all is_fine rs ≡ not (any is_unsuccessful rs)
all_fine [] h = refl
all_fine (r ∷ rs) h = ground (arith, fine_or_unsuccessful r.status, all_fine rs)

-- Where no operation is cancelled, a result is ok exactly if its run is recorded as succeeded.
pub result_ok-run_status :
    (r : SyncExecutionResult)
    → any is_cancelled r.operations ≡ false
    → result_ok r ≡ (run_status r.operations == "succeeded")
unfolding result_ok run_status
result_ok-run_status r h =
    all_fine r.operations h ∙ elim (Bool-cases (any is_unsuccessful r.operations)) [
      | inl bad ↦ elim (Bool-cases (any is_success_result r.operations)) [
        | inl good ↦ rw (bad, good) refl
        | inr none_good ↦ rw (bad, none_good) refl
      ]
      | inr fine ↦ rw fine refl
    ]
