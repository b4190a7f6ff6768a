-- ===== src/Catalog/Cases.antt =====
-- Each method on runs and operations either raises, with the state as it was, or makes one change
-- under conditions that are written out here.
use efloud.Prelude.{ℕ, String, true, false, none, some, ◌≡◌, arith, ◌⊎◌, inl, inr}
use efloud.Prelude.{◌==◌, string_eq, contains, any, Bool-cases, Option-cases}
use efloud.Prelude.Dict
use efloud.Prelude.Dict.{values, lookup}
use efloud.Errors.{Fault}
use efloud.Json.{JsonObject}
use efloud.Models.{RunId, OperationId}
use efloud.Records.{RunRecord, OperationRecord}
use efloud.Catalog.State.{MemoryCatalog, done, fail}
use efloud.Catalog.Runs.{
  run_terminal, operation_terminal, finish_run, runs_in, NewOperation, running_operation,
  start_operation, finish_operation, check_producer,
}

abbrev pub ended : ℕ → String → RunRecord → RunRecord
ended t s run = record run { finished_at = some t; status = s }

abbrev pub close_run : RunId → ℕ → String → RunRecord → MemoryCatalog → MemoryCatalog
close_run run_id t s run c = record c { runs = Dict.insert run_id (ended t s run) c.runs }

-- The run is known and running, the status is terminal, and no operation of the run is running.
pub record CanFinish (c : MemoryCatalog) (run_id : RunId) (s : String) (run : RunRecord)
    : Type 0 where
  pub found : lookup run_id c.runs ≡ some run
  pub running : run.status ≡ "running"
  pub terminal : contains run_terminal s ≡ true
  pub idle : any (runs_in run_id) (values c.operations) ≡ false

pub finish_run_cases :
    (run_id : RunId) (t : ℕ) (s : String) (c : MemoryCatalog)
    → ((f : Fault) × (finish_run run_id t s c ≡ fail f c))
      ⊎ ((run : RunRecord) × CanFinish c run_id s run
          × (finish_run run_id t s c ≡ done (close_run run_id t s run c)))
unfolding finish_run
finish_run_cases run_id t s c = elim (Option-cases (lookup run_id c.runs)) [
  | inl none_there ↦ inl (Fault.unknown_run, ground arith)
  | inr (run, found) ↦ elim (Bool-cases (run.status == "running")) [
    | inr stopped ↦ inl (Fault.run_not_running, ground arith)
    | inl running ↦ elim (Bool-cases (contains run_terminal s)) [
      | inr invalid ↦ inl (Fault.invalid_run_status, ground arith)
      | inl terminal ↦ elim (Bool-cases (any (runs_in run_id) (values c.operations))) [
        | inl busy ↦ inl (Fault.operations_still_running, ground arith)
        | inr idle ↦ inr (
          run,
          record {
            found = found;
            running = (string_eq.beq_iff run.status "running").0 running;
            terminal = terminal;
            idle = idle;
          },
          ground arith,
        )
      ]
    ]
  ]
]

abbrev pub open_operation : OperationId → NewOperation → MemoryCatalog → MemoryCatalog
open_operation id n c = record c {
  operations = Dict.insert id (running_operation id n) c.operations;
}

-- The run is known and running, the producer is well formed, and the identifier is new.
pub record CanStart (c : MemoryCatalog) (id : OperationId) (n : NewOperation) (run : RunRecord)
    : Type 0 where
  pub found : lookup n.run_id c.runs ≡ some run
  pub running : run.status ≡ "running"
  pub produced : check_producer n.parameters ≡ none
  pub fresh : Dict.has id c.operations ≡ false

pub start_operation_cases :
    (id : OperationId) (n : NewOperation) (c : MemoryCatalog)
    → ((f : Fault) × (start_operation id n c ≡ fail f c))
      ⊎ ((run : RunRecord) × CanStart c id n run
          × (start_operation id n c ≡ done (open_operation id n c)))
unfolding start_operation
start_operation_cases id n c = elim (Option-cases (lookup n.run_id c.runs)) [
  | inl none_there ↦ inl (Fault.unknown_run, ground arith)
  | inr (run, found) ↦ elim (Bool-cases (run.status == "running")) [
    | inr stopped ↦ inl (Fault.run_terminal, ground arith)
    | inl running ↦ elim (Option-cases (check_producer n.parameters)) [
      | inr (f, bad) ↦ inl (f, ground arith)
      | inl good ↦ elim (Bool-cases (Dict.has id c.operations)) [
        | inl old ↦ inl (Fault.operation_exists, ground arith)
        | inr fresh ↦ inr (
          run,
          record {
            found = found;
            running = (string_eq.beq_iff run.status "running").0 running;
            produced = good;
            fresh = fresh;
          },
          ground arith,
        )
      ]
    ]
  ]
]

abbrev pub ended_operation : ℕ → String → JsonObject → OperationRecord → OperationRecord
ended_operation t s d o = record o { finished_at = some t; status = s; details = d }

abbrev pub close_operation :
    OperationId → ℕ → String → JsonObject → OperationRecord → MemoryCatalog → MemoryCatalog
close_operation id t s d o c = record c {
  operations = Dict.insert id (ended_operation t s d o) c.operations;
}

-- The operation is known and running, and the status is terminal.
pub record CanFinishOperation (c : MemoryCatalog) (id : OperationId) (s : String)
    (o : OperationRecord) : Type 0 where
  pub found : lookup id c.operations ≡ some o
  pub running : o.status ≡ "running"
  pub terminal : contains operation_terminal s ≡ true

pub finish_operation_cases :
    (id : OperationId) (t : ℕ) (s : String) (d : JsonObject) (c : MemoryCatalog)
    → ((f : Fault) × (finish_operation id t s d c ≡ fail f c))
      ⊎ ((o : OperationRecord) × CanFinishOperation c id s o
          × (finish_operation id t s d c ≡ done (close_operation id t s d o c)))
unfolding finish_operation
finish_operation_cases id t s d c = elim (Option-cases (lookup id c.operations)) [
  | inl none_there ↦ inl (Fault.unknown_operation, ground arith)
  | inr (o, found) ↦ elim (Bool-cases (o.status == "running")) [
    | inr stopped ↦ inl (Fault.operation_not_running, ground arith)
    | inl running ↦ elim (Bool-cases (contains operation_terminal s)) [
      | inr invalid ↦ inl (Fault.invalid_operation_status, ground arith)
      | inl terminal ↦ inr (
        o,
        record {
          found = found;
          running = (string_eq.beq_iff o.status "running").0 running;
          terminal = terminal;
        },
        ground arith,
      )
    ]
  ]
]
