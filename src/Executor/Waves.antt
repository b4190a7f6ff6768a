-- ===== src/Executor/Waves.antt =====
-- The loop of `_execute_operations`. The operations of a wave are taken one after another, which is
-- one of the orders in which a semaphore lets them run.
use efloud.Prelude.{ℕ, zero, suc, String, Bool, false, List, [], ◌∷◌, Option, none, some, not, map}
use efloud.Prelude.{if◌then◌else◌, string_eq, filter, contains, all, any, length}
use efloud.Prelude.Sort.{sort}
use efloud.Prelude.Text.{str_leb}
use efloud.Prelude.Dict
use efloud.Prelude.Dict.{Dict, lookup, values}
use efloud.Prelude.Keyed.{index}
use efloud.Errors.{Fault}
use efloud.Planning.{PlannedOperation, operation_key, operation_leb, SyncPlan}
use efloud.Executor.Store.{Exec, return, throw, ◌>>=◌, Services}
use efloud.Executor.Operation.{
  OperationExecutionResult, is_succeeded, ExecutionContext, execute_operation, blocked_operation,
}

abbrev pub Results : Type 0
Results = Dict String OperationExecutionResult

abbrev pub result_key : OperationExecutionResult → String
result_key r = r.operation_key

abbrev pub is_success : Option OperationExecutionResult → Bool
is_success none = false
is_success (some r) = is_succeeded r.status

-- `results[dependency].status == "succeeded"`; an operation that is ready has all its dependencies
-- among the results.
abbrev pub has_succeeded : Results → String → Bool
has_succeeded results dependency = is_success (lookup dependency results)

-- `all(dep in results for dep in operation.dependencies)`
abbrev pub is_ready : Results → PlannedOperation → Bool
is_ready results o = all (λ d. Dict.has d results) o.dependencies

abbrev pub ready_operations : Results → List PlannedOperation → List PlannedOperation
ready_operations results pending = sort operation_leb (filter (is_ready results) pending)

abbrev pub failed_dependencies : Results → PlannedOperation → List String
failed_dependencies results o = filter (λ d. not (has_succeeded results d)) o.dependencies

-- `pending` without the operations that were ready.
abbrev pub still_pending : List PlannedOperation → List PlannedOperation → List PlannedOperation
still_pending ready pending =
    filter (λ o. not (contains (map operation_key ready) o.operation_key)) pending

-- `results.update((result.operation_key, result) for result in completed)`
abbrev pub update : Results → List OperationExecutionResult → Results
update results [] = results
update results (r ∷ rs) = update (Dict.insert r.operation_key r results) rs

-- `pending.values()` at the start: the operations of the plan, by their keys.
unfoldable pub pending_operations : SyncPlan → List PlannedOperation
pending_operations plan = values (index operation_key plan.operations)

-- The set of dependencies without the keys that are known is not empty.
abbrev pub has_unknown : List String → PlannedOperation → Bool
has_unknown known_keys o = not (all (λ d. contains known_keys d) o.dependencies)

abbrev pub result_leb : String × OperationExecutionResult → String × OperationExecutionResult → Bool
result_leb a b = str_leb a.0 b.0

-- `tuple(results[key] for key in sorted(results))`
abbrev pub in_order : Results → List OperationExecutionResult
in_order results = values (sort result_leb results)

abbrev pub ordered : Option Results → Option (List OperationExecutionResult)
ordered none = none
ordered (some results) = some (in_order results)

module _ {S : Type 0} (services : Services S) (context : ExecutionContext) where
  -- The loop over `ready`: the operations that are blocked are recorded, the others are kept.
  unfoldable pub settle : List PlannedOperation → Results → Exec S (Results × List PlannedOperation)
  settle [] results = return (results, [])
  settle (o ∷ os) results = elim (failed_dependencies results o) [
    | [] ↦ do rest ← settle os results; return (rest.0, o ∷ rest.1)
    | d ∷ ds ↦ do
      r ← blocked_operation services context o (d ∷ ds)
      settle os (Dict.insert o.operation_key r results)
  ]

  -- `_execute_wave`
  unfoldable pub execute_wave : List PlannedOperation → Exec S (List OperationExecutionResult)
  execute_wave [] = return []
  execute_wave (o ∷ os) = do
    r ← execute_operation services context o
    rs ← execute_wave os
    return (r ∷ rs)

  -- The `while pending` loop; `none` if the fuel is used up first.
  unfoldable pub run_waves : ℕ → List PlannedOperation → Results → Exec S (Option Results)
  unfolding settle execute_wave
  run_waves fuel [] results = return (some results)
  run_waves zero (p ∷ ps) results = return none
  run_waves (suc fuel) (p ∷ ps) results = elim (ready_operations results (p ∷ ps)) [
    | [] ↦ throw Fault.dependency_cycle
    | o ∷ os ↦ do
      settled ← settle (o ∷ os) results
      completed ← execute_wave settled.1
      run_waves fuel (still_pending (o ∷ os) (p ∷ ps)) (update settled.0 completed)
  ]

  -- `_execute_operations`, with one wave of fuel for each operation.
  unfoldable pub execute_operations : Exec S (Option (List OperationExecutionResult))
  unfolding run_waves pending_operations
  execute_operations =
      let pending = pending_operations context.plan in
      if any (has_unknown (map operation_key pending)) pending
      then throw Fault.unknown_dependency
      else do results ← run_waves (length pending) pending []; return (ordered results)
