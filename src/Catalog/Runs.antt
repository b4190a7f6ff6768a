-- ===== src/Catalog/Runs.antt =====
-- Sources, runs and operations of `MemoryCatalog`.
use efloud.Prelude.{ℕ, String, Bool, List, [], ◌∷◌, Option, none, some, not, ◌&&◌}
use efloud.Prelude.{if◌then◌else◌, ◌==◌, string_eq, option_eq, contains, any, filter, take}
use efloud.Prelude.Sort.{sort, flip, stamp_leb}
use efloud.Prelude.Text.{str_leb}
use efloud.Prelude.Dict
use efloud.Prelude.Dict.{keys, values, lookup}
use efloud.Errors.{ok, raise, Fault}
use efloud.Json.{Json, JsonObject, end, get, mapping_or_none}
use efloud.Models.{SourceId, RunId, OperationId, producer_from_mapping}
use efloud.Records.{SourceRecord, RunRecord, OperationRecord, source_record}
use efloud.Catalog.State.{MemoryCatalog, Outcome, done, fail, ℤ, max_zero}

-- `_RUN_TERMINAL`
abbrev pub run_terminal : List String
run_terminal = "succeeded" ∷ "partial" ∷ "failed" ∷ "cancelled" ∷ []

-- `_OPERATION_TERMINAL`
abbrev pub operation_terminal : List String
operation_terminal = "succeeded" ∷ "failed" ∷ "cancelled" ∷ []

-- A source whose definition does not decode is not stored.
unfoldable pub register_source : (Json → String) → SourceId → JsonObject → MemoryCatalog → Outcome
unfolding source_record Dict.insert
register_source digest source_id definition c = elim (source_record digest source_id definition) [
  | raise f ↦ fail f c
  | ok source ↦ done (record c { sources = Dict.insert source_id source c.sources })
]

-- `sources()`: by identifier.
unfoldable pub sources : MemoryCatalog → List SourceRecord
unfolding sort
sources c = values (sort (λ (a b : SourceId × SourceRecord). str_leb a.0 b.0) c.sources)

unfoldable pub start_run : RunId → ℕ → JsonObject → MemoryCatalog → Outcome
start_run run_id started_at metadata c =
    if Dict.has run_id c.runs
    then fail Fault.run_exists c
    else done (record c {
      runs =
          Dict.insert run_id
            (record {
              run_id = run_id;
              started_at = started_at;
              finished_at = none;
              status = "running";
              metadata = metadata;
            })
            c.runs;
    })

-- `operation.run_id == run_id and operation.status == "running"`
abbrev pub runs_in : RunId → OperationRecord → Bool
runs_in run_id operation = operation.run_id == run_id && operation.status == "running"

unfoldable pub finish_run : RunId → ℕ → String → MemoryCatalog → Outcome
finish_run run_id finished_at status c = elim (lookup run_id c.runs) [
  | none ↦ fail Fault.unknown_run c
  | some run ↦
      if not (run.status == "running")
      then fail Fault.run_not_running c
      else if not (contains run_terminal status)
      then fail Fault.invalid_run_status c
      else if any (runs_in run_id) (values c.operations)
      then fail Fault.operations_still_running c
      else done (record c {
        runs =
            Dict.insert run_id (record run { finished_at = some finished_at; status = status })
              c.runs;
      })
]

abbrev pub run_leb : RunRecord → RunRecord → Bool
run_leb a b = stamp_leb (a.started_at, a.run_id) (b.started_at, b.run_id)

-- The most recent runs first.
unfoldable pub recent_runs : ℤ → MemoryCatalog → List RunRecord
recent_runs limit c = take (max_zero limit) (sort (flip run_leb) (values c.runs))

-- The arguments of `start_operation`.
pub record NewOperation : Type 0 where
  pub run_id : RunId
  pub source_id : Option SourceId
  pub kind : String
  pub subject : String
  pub started_at : ℕ
  pub parameters : JsonObject

abbrev pub running_operation : OperationId → NewOperation → OperationRecord
running_operation operation_id n = record {
  operation_id = operation_id;
  run_id = n.run_id;
  source_id = n.source_id;
  kind = n.kind;
  subject = n.subject;
  started_at = n.started_at;
  finished_at = none;
  status = "running";
  parameters = n.parameters;
  details = end;
}

-- The last check of `start_operation`, and the insertion.
unfoldable pub insert_operation : OperationId → NewOperation → MemoryCatalog → Outcome
insert_operation operation_id n c =
    if Dict.has operation_id c.operations
    then fail Fault.operation_exists c
    else done (record c {
      operations = Dict.insert operation_id (running_operation operation_id n) c.operations;
    })

-- The producer of an operation, from its parameters.
unfoldable pub check_producer : JsonObject → Option Fault
unfolding producer_from_mapping
check_producer parameters = elim (mapping_or_none (get "producer" parameters)) [
  | none ↦ some Fault.producer_missing
  | some producer ↦ elim (producer_from_mapping producer) [ raise f ↦ some f | ok _ ↦ none ]
]

unfoldable pub start_operation : OperationId → NewOperation → MemoryCatalog → Outcome
unfolding insert_operation
start_operation operation_id n c = elim (lookup n.run_id c.runs) [
  | none ↦ fail Fault.unknown_run c
  | some run ↦
      if not (run.status == "running")
      then fail Fault.run_terminal c
      else elim (check_producer n.parameters) [
        | some f ↦ fail f c
        | none ↦ insert_operation operation_id n c
      ]
]

unfoldable pub finish_operation : OperationId → ℕ → String → JsonObject → MemoryCatalog → Outcome
finish_operation operation_id finished_at status details c =
    elim (lookup operation_id c.operations) [
      | none ↦ fail Fault.unknown_operation c
      | some operation ↦
          if not (operation.status == "running")
          then fail Fault.operation_not_running c
          else if not (contains operation_terminal status)
          then fail Fault.invalid_operation_status c
          else done (record c {
            operations =
                Dict.insert operation_id
                  (record operation {
                    finished_at = some finished_at;
                    status = status;
                    details = details;
                  })
                  c.operations;
          })
    ]

abbrev pub operation_leb : OperationRecord → OperationRecord → Bool
operation_leb a b = stamp_leb (a.started_at, a.operation_id) (b.started_at, b.operation_id)

-- The operations of a run, in the order in which they were started.
unfoldable pub operations_for_run : RunId → MemoryCatalog → List OperationRecord
operations_for_run run_id c =
    sort operation_leb (filter (λ o. o.run_id == run_id) (values c.operations))

-- The latest operations of a source first.
unfoldable pub operations_for_source : SourceId → ℤ → MemoryCatalog → List OperationRecord
operations_for_source source_id limit c =
    take (max_zero limit) (
      sort (flip operation_leb) (filter (λ o. o.source_id == some source_id) (values c.operations)))
