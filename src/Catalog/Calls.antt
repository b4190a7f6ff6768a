-- ===== src/Catalog/Calls.antt =====
-- Any client of a catalog: a sequence of calls, of which some may raise. The state goes on from
-- what each call left.
use efloud.Prelude.{ℕ, String, List, [], ◌∷◌}
use efloud.Json.{Json, JsonObject}
use efloud.Models.{
  SourceId, RunId, OperationId, ContentRef, ArtifactObservation, ArtifactAbsence, ProvenanceEdge,
  ValidationResult, SourceSnapshot,
}
use efloud.Records.{DatasetRecord}
use efloud.Catalog.State.{MemoryCatalog, Outcome, empty}
use efloud.Catalog.Runs.{
  register_source, start_run, finish_run, NewOperation, start_operation, finish_operation,
}
use efloud.Catalog.Evidence.{record_content, record_observation_bundle, record_absence}
use efloud.Catalog.Snapshots.{record_validation, record_source_snapshot, record_dataset}
use efloud.Catalog.Lifecycle.{
  IsLifecycle, empty-IsLifecycle, start_run-IsLifecycle, finish_run-IsLifecycle,
  start_operation-IsLifecycle, finish_operation-IsLifecycle,
}
use efloud.Catalog.Recorded.{
  IsEvidence, empty-IsEvidence, record_content-IsEvidence, record_absence-IsEvidence,
  bundle-IsEvidence,
}
use efloud.Catalog.Stored.{
  IsStored, empty-IsStored, register_source-IsStored, record_validation-IsStored,
  record_source_snapshot-IsStored, record_dataset-IsStored,
}
use efloud.Catalog.Frames.{
  IsLifecycle-of_same, IsEvidence-of_same, IsStored-of_same, start_run_frame, finish_run_frame,
  start_operation_frame, finish_operation_frame, record_content_frame, bundle_frame,
  record_absence_frame, record_validation_frame, record_source_snapshot_frame,
  register_source_frame, record_dataset_frame, SameLifecycle, SameEvidence, SameStored,
}

-- The methods of `MemoryCatalog` that write.
pub data Call : Type 0 where
  register : SourceId → JsonObject → Call
  start : RunId → ℕ → JsonObject → Call
  finish : RunId → ℕ → String → Call
  start_op : OperationId → NewOperation → Call
  finish_op : OperationId → ℕ → String → JsonObject → Call
  content : ContentRef → Call
  bundle : ContentRef → ArtifactObservation → List ProvenanceEdge → Call
  absence : ArtifactAbsence → Call
  validated : ValidationResult → Call
  snapshot : SourceSnapshot → Call
  dataset : DatasetRecord → Call

pub record IsWellFormed (c : MemoryCatalog) : Type 0 where
  pub lifecycle : IsLifecycle c
  pub evidence : IsEvidence c
  pub stored : IsStored c

pub empty-IsWellFormed : IsWellFormed empty
empty-IsWellFormed = record {
  lifecycle = empty-IsLifecycle;
  evidence = empty-IsEvidence;
  stored = empty-IsStored;
}

module _ (digest : Json → String) where
  unfoldable pub execute : Call → MemoryCatalog → Outcome
  execute (register id d) c = register_source digest id d c
  execute (start id t m) c = start_run id t m c
  execute (finish id t s) c = finish_run id t s c
  execute (start_op id n) c = start_operation id n c
  execute (finish_op id t s d) c = finish_operation id t s d c
  execute (content r) c = record_content r c
  execute (bundle r o edges) c = record_observation_bundle r o edges c
  execute (absence a) c = record_absence a c
  execute (validated r) c = record_validation r c
  execute (snapshot s) c = record_source_snapshot s c
  execute (dataset d) c = record_dataset digest d c

  -- The state after the calls; what they return or raise is dropped.
  unfoldable pub run_calls : List Call → MemoryCatalog → MemoryCatalog
  run_calls [] c = c
  run_calls (call ∷ calls) c = run_calls calls (execute call c).1

  module _ (c d : MemoryCatalog) (w : IsWellFormed c) where
    by_lifecycle : IsLifecycle d → SameEvidence c d × SameStored c d → IsWellFormed d
    by_lifecycle l s = record {
      lifecycle = l;
      evidence = IsEvidence-of_same s.0 w.evidence;
      stored = IsStored-of_same s.1 w.stored;
    }

    by_evidence : IsEvidence d → SameLifecycle c d × SameStored c d → IsWellFormed d
    by_evidence l s = record {
      lifecycle = IsLifecycle-of_same s.0 w.lifecycle;
      evidence = l;
      stored = IsStored-of_same s.1 w.stored;
    }

    by_stored : IsStored d → SameLifecycle c d × SameEvidence c d → IsWellFormed d
    by_stored l s = record {
      lifecycle = IsLifecycle-of_same s.0 w.lifecycle;
      evidence = IsEvidence-of_same s.1 w.evidence;
      stored = l;
    }

  -- Every call keeps the invariant, whether it returns or raises.
  pub execute-IsWellFormed :
      (call : Call) (c : MemoryCatalog) → IsWellFormed c → IsWellFormed (execute call c).1
  unfolding execute
  execute-IsWellFormed (register id d) c w =
      by_stored c _ w (register_source-IsStored digest c w.stored id d)
        (register_source_frame c digest id d)
  execute-IsWellFormed (start id t m) c w =
      by_lifecycle c _ w (start_run-IsLifecycle c w.lifecycle id t m) (start_run_frame c id t m)
  execute-IsWellFormed (finish id t s) c w =
      by_lifecycle c _ w (finish_run-IsLifecycle c w.lifecycle id t s) (finish_run_frame c id t s)
  execute-IsWellFormed (start_op id n) c w =
      by_lifecycle c _ w (start_operation-IsLifecycle c w.lifecycle id n)
        (start_operation_frame c id n)
  execute-IsWellFormed (finish_op id t s d) c w =
      by_lifecycle c _ w (finish_operation-IsLifecycle c w.lifecycle id t s d)
        (finish_operation_frame c id t s d)
  execute-IsWellFormed (content r) c w =
      by_evidence c _ w (record_content-IsEvidence c w.evidence r) (record_content_frame c r)
  execute-IsWellFormed (bundle r o edges) c w =
      by_evidence c _ w (bundle-IsEvidence c w.evidence r o edges) (bundle_frame c r o edges)
  execute-IsWellFormed (absence a) c w =
      by_evidence c _ w (record_absence-IsEvidence c w.evidence a) (record_absence_frame c a)
  execute-IsWellFormed (validated r) c w =
      by_stored c _ w (record_validation-IsStored c w.stored r) (record_validation_frame c r)
  execute-IsWellFormed (snapshot s) c w =
      by_stored c _ w (record_source_snapshot-IsStored c w.stored s)
        (record_source_snapshot_frame c s)
  execute-IsWellFormed (dataset d) c w =
      by_stored c _ w (record_dataset-IsStored digest c w.stored d)
        (record_dataset_frame c digest d)

  pub run_calls-IsWellFormed_from :
      (calls : List Call) (c : MemoryCatalog) → IsWellFormed c → IsWellFormed (run_calls calls c)
  unfolding run_calls
  run_calls-IsWellFormed_from [] c w = w
  run_calls-IsWellFormed_from (call ∷ calls) c w =
      run_calls-IsWellFormed_from calls (execute call c).1 (execute-IsWellFormed call c w)

  -- A new catalog is well formed after any sequence of calls, those that raise included: no
  -- terminal run has a running operation, an identifier names an observation or an absence but
  -- not both, and the content and the provenance of an observation are recorded.
  pub run_calls-IsWellFormed : (calls : List Call) → IsWellFormed (run_calls calls empty)
  run_calls-IsWellFormed calls = run_calls-IsWellFormed_from calls empty empty-IsWellFormed
