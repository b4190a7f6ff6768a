-- ===== src/Repository/Runs.antt =====
-- Sources, runs and operations of `Repository`. `normalize` stands for
-- `kind.strip().lower().replace("_", "-")`.
use efloud.Prelude.{ℕ, String, ◌<>◌, Bool, true, false, List, [], Option, none, some, not}
use efloud.Prelude.{if◌then◌else◌, ◌==◌, string_eq, any, contains}
use efloud.Prelude.Sort.{sort}
use efloud.Prelude.Text.{str_leb}
use efloud.Prelude.Dict.{lookup}
use efloud.Errors.{Result, ok, raise, Fault}
use efloud.Json.{Json, JsonObject, str, obj, put}
use efloud.Models.{
  SourceId, RunId, OperationId, SourceDefinitionRevision, ProducerRef, producer_ref,
  producer_to_dict,
}
use efloud.Payloads.{run_id_for, operation_id_for}
use efloud.Envelopes.{source_definition_history_payload}
use efloud.Records.{SourceRecord, OperationRecord}
use efloud.Catalog
use efloud.Catalog.Runs
use efloud.Catalog.Runs.{NewOperation, operations_for_run, run_terminal, operation_terminal}
use efloud.Repository.State.{
  Method, ◌>>=◌, lift, read, raise_if, demand, catalog_call, require_active,
}

abbrev pub revision_key : String
revision_key = "source_definition_revision_id"

-- `_canonical_terminal_status`
unfoldable pub canonical_terminal_status : String → Bool → Result String
canonical_terminal_status status operation =
    let allowed = if operation then operation_terminal else run_terminal in
    if contains allowed status
    then ok status
    else raise (if operation then Fault.invalid_operation_status else Fault.invalid_run_status)

-- `_default_producer`
unfoldable pub default_producer : (String → String) → String → Result ProducerRef
unfolding producer_ref
default_producer normalize kind =
    let normalized = normalize kind in
    producer_ref ("efloud:" <> (if normalized == "" then "operation" else normalized)) "1"

-- `producer or _default_producer(kind)`
unfoldable pub producer_or_default :
    (String → String) → Option ProducerRef → String → Result ProducerRef
unfolding default_producer
producer_or_default normalize none kind = default_producer normalize kind
producer_or_default normalize (some producer) kind = ok producer

abbrev pub existing_revisions : Option SourceRecord → List SourceDefinitionRevision
existing_revisions none = []
existing_revisions (some source) = source.revisions

-- `operation.status == "running"`
abbrev pub is_running : OperationRecord → Bool
is_running o = o.status == "running"

module _ {Blobs : Type 0} (digest : Json → String) where
  -- `register_source`
  unfoldable pub register_source : SourceId → JsonObject → Method Blobs SourceId
  unfolding require_active source_definition_history_payload
  register_source source_id definition = do
    writable ← require_active
    existing ← read (λ s. ok (existing_revisions (lookup source_id s.catalog.sources)))
    registered ← catalog_call (
        Catalog.Runs.register_source digest source_id
          (source_definition_history_payload digest source_id definition existing))
    lift (ok source_id)

  -- `_source_revision_id`
  abbrev pub source_revision_id : SourceId → Method Blobs String
  source_revision_id source_id = do
    source ← read (λ s. demand Fault.unknown_source (lookup source_id s.catalog.sources))
    lift (ok source.revision_id)

  -- `_source_evidence`
  unfoldable pub source_evidence : JsonObject → Option SourceId → Method Blobs JsonObject
  source_evidence payload none = lift (ok payload)
  source_evidence payload (some source_id) = do
    revision_id ← source_revision_id source_id
    lift (ok (put revision_key (str revision_id) payload))

  -- `start_run`, at the time `started_at`.
  unfoldable pub start_run : List SourceId → ℕ → JsonObject → Method Blobs RunId
  unfolding require_active run_id_for
  start_run source_ids started_at metadata = do
    writable ← require_active
    let run_id = run_id_for digest started_at (sort str_leb source_ids)
    started ← catalog_call (Catalog.Runs.start_run run_id started_at metadata)
    lift (ok run_id)

  -- `finish_run`: its own checks come before those of the catalog.
  unfoldable pub finish_run : RunId → String → ℕ → Method Blobs (Unit {0})
  unfolding require_active canonical_terminal_status operations_for_run
  finish_run run_id status finished_at = do
    writable ← require_active
    run ← read (λ s. demand Fault.unknown_run (lookup run_id s.catalog.runs))
    going ← raise_if (not (run.status == "running")) Fault.run_not_running
    idle ← read (λ s.
        if any is_running (operations_for_run run_id s.catalog)
        then raise Fault.operations_still_running
        else ok tt)
    final ← lift (canonical_terminal_status status false)
    catalog_call (Catalog.Runs.finish_run run_id finished_at final)

  -- `start_operation`
  unfoldable pub start_operation :
      (String → String) → Option ProducerRef → NewOperation → Method Blobs OperationId
  unfolding require_active operation_id_for producer_or_default producer_to_dict source_evidence
  start_operation normalize producer n = do
    writable ← require_active
    run ← read (λ s. demand Fault.unknown_run (lookup n.run_id s.catalog.runs))
    going ← raise_if (not (run.status == "running")) Fault.run_terminal
    let operation_id = operation_id_for digest n.run_id n.kind n.subject
    chosen ← lift (producer_or_default normalize producer n.kind)
    parameters ←
        source_evidence (put "producer" (obj (producer_to_dict chosen)) n.parameters) n.source_id
    started ←
        catalog_call
          (Catalog.Runs.start_operation operation_id (record n { parameters = parameters }))
    lift (ok operation_id)

  -- `finish_operation`
  unfoldable pub finish_operation : OperationId → String → ℕ → JsonObject → Method Blobs (Unit {0})
  unfolding require_active canonical_terminal_status
  finish_operation operation_id status finished_at details = do
    writable ← require_active
    operation ←
        read (λ s. demand Fault.unknown_operation (lookup operation_id s.catalog.operations))
    going ← raise_if (not (operation.status == "running")) Fault.operation_not_running
    final ← lift (canonical_terminal_status status true)
    catalog_call (Catalog.Runs.finish_operation operation_id finished_at final details)
