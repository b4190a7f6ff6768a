-- ===== src/Catalog/Lifecycle.antt =====
-- Runs and operations: the invariant of their two tables, and what keeps it.
use mathlib.Core.Path.{subst}
use efloud.Prelude.{sym, ℕ, String, true, none, some, ◌≡◌, arith, ◌⊎◌, inl, inr}
use efloud.Prelude.{string_eq, is_some, contains, any-false_iff, Bool-cases}
use efloud.Prelude.{Distinct}
use efloud.Prelude.Dict
use efloud.Prelude.Dict.{Dict, keys, values, lookup, lookup-insert}
use efloud.Prelude.Keyed.{Keyed, insert-Keyed, lookup-Keyed}
use efloud.Json.{JsonObject}
use efloud.Models.{RunId, OperationId}
use efloud.Records.{RunRecord, OperationRecord}
use efloud.Catalog.State.{MemoryCatalog, empty}
use efloud.Catalog.Cases.{
  ended, close_run, CanFinish, finish_run_cases, open_operation, CanStart, start_operation_cases,
  ended_operation, close_operation, CanFinishOperation, finish_operation_cases,
}
use efloud.Catalog.Runs.{
  running_operation, run_terminal, operation_terminal, start_run, finish_run, runs_in, NewOperation,
  start_operation, finish_operation,
}

abbrev pub run_key : RunRecord → RunId
run_key r = r.run_id

abbrev pub operation_key : OperationRecord → OperationId
operation_key o = o.operation_id

-- A running record has no end, and a terminal one has a terminal status and an end.
abbrev pub IsRunStatus : RunRecord → Type 0
IsRunStatus r =
    ((r.status ≡ "running") × (r.finished_at ≡ none))
    ⊎ ((contains run_terminal r.status ≡ true) × (is_some r.finished_at ≡ true))

abbrev pub IsOperationStatus : OperationRecord → Type 0
IsOperationStatus o =
    ((o.status ≡ "running") × (o.finished_at ≡ none))
    ⊎ ((contains operation_terminal o.status ≡ true) × (is_some o.finished_at ≡ true))

pub record IsLifecycle (c : MemoryCatalog) : Type 0 where
  pub runs_keyed : Keyed run_key c.runs
  pub runs_distinct : Distinct (keys c.runs)
  pub operations_keyed : Keyed operation_key c.operations
  pub operations_distinct : Distinct (keys c.operations)
  pub run_status : (id : RunId) (r : RunRecord) → lookup id c.runs ≡ some r → IsRunStatus r
  pub operation_status :
      (id : OperationId) (o : OperationRecord)
      → lookup id c.operations ≡ some o
      → IsOperationStatus o
  -- An operation belongs to a run that is known.
  pub run_known :
      (id : OperationId) (o : OperationRecord)
      → lookup id c.operations ≡ some o
      → is_some (lookup o.run_id c.runs) ≡ true
  -- A running operation belongs to a running run.
  pub run_open :
      (id : OperationId) (o : OperationRecord) (r : RunRecord)
      → lookup id c.operations ≡ some o
      → o.status ≡ "running"
      → lookup o.run_id c.runs ≡ some r
      → r.status ≡ "running"

pub empty-IsLifecycle : IsLifecycle empty
unfolding lookup
empty-IsLifecycle = record {
  runs_keyed = tt;
  runs_distinct = tt;
  operations_keyed = tt;
  operations_distinct = tt;
  run_status = λ id r h. ground arith;
  operation_status = λ id o h. ground arith;
  run_known = λ id o h. ground arith;
  run_open = λ id o r h p q. ground arith;
}

module _ (c : MemoryCatalog) (l : IsLifecycle c) where
  pub start_run-IsLifecycle :
      (run_id : RunId) (t : ℕ) (m : JsonObject) → IsLifecycle (start_run run_id t m c).1
  unfolding start_run
  start_run-IsLifecycle run_id t m = elim (Bool-cases (Dict.has run_id c.runs)) [
    | inl old ↦ rw old l
    | inr new ↦ rw new (record {
      runs_keyed = insert-Keyed run_key _ c.runs l.runs_keyed;
      runs_distinct = Dict.insert-Distinct run_id _ c.runs l.runs_distinct;
      operations_keyed = l.operations_keyed;
      operations_distinct = l.operations_distinct;
      run_status = λ id r. rw lookup-insert (ground (arith, l.run_status id r));
      operation_status = l.operation_status;
      run_known = λ id o h. rw lookup-insert (ground (arith, l.run_known id o h));
      run_open = λ id o r h p. rw lookup-insert (ground (arith, l.run_open id o r h p));
    })
  ]

  closed_run-IsLifecycle :
      (run_id : RunId) (t : ℕ) (s : String) (run : RunRecord)
      → CanFinish c run_id s run
      → IsLifecycle (close_run run_id t s run c)
  closed_run-IsLifecycle run_id t s run k = record {
    runs_keyed =
        subst (λ (i : RunId). Keyed run_key (Dict.insert i (ended t s run) c.runs))
          (sym (lookup-Keyed run_key run_id run c.runs l.runs_keyed k.found))
          (insert-Keyed run_key (ended t s run) c.runs l.runs_keyed);
    runs_distinct = Dict.insert-Distinct run_id _ c.runs l.runs_distinct;
    operations_keyed = l.operations_keyed;
    operations_distinct = l.operations_distinct;
    run_status = λ id r. rw lookup-insert (ground (arith, l.run_status id r, k.terminal));
    operation_status = l.operation_status;
    run_known = λ id o h. rw lookup-insert (ground (arith, l.run_known id o h));
    run_open = λ id o r h p. rw lookup-insert (
        ground (
          arith,
          l.run_open id o r h p,
          string_eq.beq_iff o.run_id run_id,
          string_eq.beq_iff o.status "running",
          (any-false_iff (runs_in run_id) (values c.operations)).0 k.idle o
              (Dict.Member-values_of_lookup id o c.operations h),
        ));
  }

  pub finish_run-IsLifecycle :
      (run_id : RunId) (t : ℕ) (s : String) → IsLifecycle (finish_run run_id t s c).1
  finish_run-IsLifecycle run_id t s = elim (finish_run_cases run_id t s c) [
    | inl (f, e) ↦ rw e l
    | inr (run, k, e) ↦ rw e (closed_run-IsLifecycle run_id t s run k)
  ]

  opened-IsLifecycle :
      (id : OperationId) (n : NewOperation) (run : RunRecord)
      → CanStart c id n run
      → IsLifecycle (open_operation id n c)
  opened-IsLifecycle id n run k = record {
    runs_keyed = l.runs_keyed;
    runs_distinct = l.runs_distinct;
    operations_keyed =
        insert-Keyed operation_key (running_operation id n) c.operations l.operations_keyed;
    operations_distinct = Dict.insert-Distinct id _ c.operations l.operations_distinct;
    run_status = l.run_status;
    operation_status = λ j o. rw lookup-insert (ground (arith, l.operation_status j o));
    run_known = λ j o. rw lookup-insert (ground (arith, l.run_known j o, k.found));
    run_open = λ j o r. rw lookup-insert (ground (arith, l.run_open j o r, k.found, k.running));
  }

  pub start_operation-IsLifecycle :
      (id : OperationId) (n : NewOperation) → IsLifecycle (start_operation id n c).1
  start_operation-IsLifecycle id n = elim (start_operation_cases id n c) [
    | inl (f, e) ↦ rw e l
    | inr (run, k, e) ↦ rw e (opened-IsLifecycle id n run k)
  ]

  closed_operation-IsLifecycle :
      (id : OperationId) (t : ℕ) (s : String) (d : JsonObject) (o : OperationRecord)
      → CanFinishOperation c id s o
      → IsLifecycle (close_operation id t s d o c)
  closed_operation-IsLifecycle id t s d o k = record {
    runs_keyed = l.runs_keyed;
    runs_distinct = l.runs_distinct;
    operations_keyed =
        subst
          (λ (i : OperationId).
            Keyed operation_key (Dict.insert i (ended_operation t s d o) c.operations))
          (sym (lookup-Keyed operation_key id o c.operations l.operations_keyed k.found))
          (insert-Keyed operation_key (ended_operation t s d o) c.operations l.operations_keyed);
    operations_distinct = Dict.insert-Distinct id _ c.operations l.operations_distinct;
    run_status = l.run_status;
    operation_status = λ j p. rw lookup-insert (ground (arith, l.operation_status j p, k.terminal));
    run_known = λ j p. rw lookup-insert (ground (arith, l.run_known j p, l.run_known id o k.found));
    run_open = λ j p r.
        rw lookup-insert (ground (arith, l.run_open j p r, l.run_open id o r k.found k.running));
  }

  pub finish_operation-IsLifecycle :
      (id : OperationId) (t : ℕ) (s : String) (d : JsonObject)
      → IsLifecycle (finish_operation id t s d c).1
  finish_operation-IsLifecycle id t s d = elim (finish_operation_cases id t s d c) [
    | inl (f, e) ↦ rw e l
    | inr (o, k, e) ↦ rw e (closed_operation-IsLifecycle id t s d o k)
  ]
