-- ===== src/Tests/Executions.antt =====
-- A plan of three operations: one that fails, one that needs it, and one on its own.
use efloud.Prelude.{
  String, ◌<>◌, string_eq, Bool, true, false, List, [], ◌∷◌, none, some, ◌≡◌, refl, inl, map,
  Distinct, Member, is_some, ◌++◌, ◌==◌,
}
use efloud.Prelude.Sort
use efloud.Prelude.Sort.{sort}
use efloud.Prelude.Dict
use efloud.Prelude.Keyed.{index, index_onto}
use efloud.Prelude.Text.{str_leb}
use efloud.Errors.{ok}
use efloud.Json.{JsonObject, end}
use efloud.Models.{partition_colon}
use efloud.Planning.{
  PlannedOperation, derived, SyncPlan, SyncRequest, PlanningDecision, make_sync_plan, operation_key,
  refresh_to_dict,
}
use efloud.Planning.Identity.{make_sync_plan-Perm}
use mathlib.Core.List.{Permᴰ}
use efloud.Executor.Store.{Exec, Services, RecordedStatus, recorded}
use efloud.Executor.Operation.{
  ExecutionStatus, succeeded, failed, blocked, OperationExecutionResult, ExecutionContext,
  execute_operation, blocked_operation, start_operation, recorded_result, conclude, source_result,
  operation_kind, operation_parameters, after_last_colon, blocked_details,
}
use efloud.Executor.Waves.{
  settle, execute_wave, run_waves, pending_operations, execute_operations, result_key,
}
use efloud.Executor.Verdicts.{Verdict}
use efloud.Executor.Executed.{
  execute_operations-Verdict, execute_operations-Distinct, execute_operations_enough,
}
use efloud.Executor.Run.{SyncExecutionResult, result_ok, run_status, result_ok-run_status}
use efloud.Tests.Sample.{render}

abbrev pub Log : Type 0
Log = List String

abbrev done : String → Exec Log (Unit {0})
done text log = (ok tt, log ++ (text ∷ []))

-- The calls are logged; the task `a` fails.
abbrev pub services : Services Log
services = record {
  register_source = λ id definition. done ("source " <> id);
  start_run = λ ids metadata log. (ok "run:1", log);
  finish_run = λ id status. done ("run " <> status);
  running_operations = λ id log. [];
  start_operation = λ a log. (ok a.subject, log ++ (("start " <> a.subject) ∷ []));
  finish_operation = λ id status details. done (status <> " " <> id);
  has_adapter = λ id. true;
  has_task = λ name. true;
  acquire = λ o id log. (recorded RecordedStatus.succeeded [] end, log);
  derive = λ o id log. (recorded (if_failed (o.subject == "a")) [] end, log);
}
  where
    if_failed : Bool → RecordedStatus
    if_failed true = RecordedStatus.failed
    if_failed false = RecordedStatus.succeeded

abbrev pub task : String → List String → PlannedOperation
task name dependencies = record {
  operation_key = name;
  kind = derived;
  subject = name;
  producer = record { producer_id = "efloud:t"; version = "1" };
  source_id = none;
  dependencies = dependencies;
  refresh = none;
  scope = [];
  parameters = end;
}

abbrev request : SyncRequest
request = record {
  source_ids = none;
  include_derived = true;
  dry_run = false;
  max_concurrency = 4;
  refresh = false;
  refresh_source_ids = [];
}

abbrev pub plan : SyncPlan
plan = record {
  plan_id = "plan:1";
  request = request;
  decisions = [];
  operations = task "b" ("a" ∷ []) ∷ task "c" [] ∷ task "a" [] ∷ [];
}

abbrev pub context : ExecutionContext
context = record { sources = []; plan = plan; run_id = "run:1" }

abbrev result : String → ExecutionStatus → JsonObject → OperationExecutionResult
result name status details = record {
  operation_key = name;
  status = status;
  observation_ids = [];
  details = details;
}

abbrev results : List OperationExecutionResult
results =
    result "a" failed end
    ∷ result "b" blocked (blocked_details ("a" ∷ []))
    ∷ result "c" succeeded end
    ∷ []

abbrev log : Log
log = "start a" ∷ "failed a" ∷ "start c" ∷ "succeeded c" ∷ "start b" ∷ "cancelled b" ∷ []

-- The dependent operation is started and cancelled once the other two are done.
executed : execute_operations services context [] ≡ (ok (some results), log)
unfolding execute_operations run_waves settle execute_wave execute_operation blocked_operation
    start_operation recorded_result conclude source_result pending_operations index index_onto
    Dict.insert Dict.lookup sort Sort.insert str_leb operation_kind operation_parameters
    after_last_colon partition_colon refresh_to_dict
executed = refl

waiting : Member (task "b" ("a" ∷ [])) (pending_operations plan)
unfolding pending_operations index index_onto Dict.insert
waiting = inl refl

execute_operations-Verdict_example : Verdict (task "b" ("a" ∷ [])) results
execute_operations-Verdict_example =
    execute_operations-Verdict services context [] log results executed (task "b" ("a" ∷ []))
      waiting

execute_operations-Distinct_example :
    Distinct (map result_key results)
    × ((r : OperationExecutionResult)
        → Member r results
        → Member r.operation_key (map operation_key (pending_operations plan)))
execute_operations-Distinct_example =
    execute_operations-Distinct services context [] log results executed

execute_operations_enough_example : is_some (some results) ≡ true
execute_operations_enough_example =
    execute_operations_enough services context [] log (some results) executed

abbrev reported : SyncExecutionResult
reported = record { plan_id = "plan:1"; run_id = some "run:1"; operations = results }

result_ok-run_status_example : result_ok reported ≡ (run_status results == "succeeded")
result_ok-run_status_example = result_ok-run_status reported refl

abbrev unselected : String → PlanningDecision
unselected id = record {
  source_id = id;
  selected = false;
  reason = "source not requested";
  adapter_id = none;
  adapter_version = none;
  refresh = none;
  scope = [];
}

make_sync_plan-Perm_example :
    make_sync_plan render request
      (unselected "s" ∷ unselected "t" ∷ [])
      (task "b" ("a" ∷ []) ∷ task "a" [] ∷ [])
    ≡ make_sync_plan render request
        (unselected "t" ∷ unselected "s" ∷ [])
        (task "a" [] ∷ task "b" ("a" ∷ []) ∷ [])
make_sync_plan-Perm_example =
    make_sync_plan-Perm render request (Permᴰ.swap refl refl) (Permᴰ.swap refl refl)
      (refl, (refl, tt)) (refl, (refl, tt))
