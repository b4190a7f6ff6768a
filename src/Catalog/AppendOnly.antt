-- ===== src/Catalog/AppendOnly.antt =====
-- What any sequence of calls of catalog/memory.py does to the records of a catalog.
use efloud.Prelude.{String, List, [], ◌∷◌}
use efloud.Json.{Json}
use efloud.Catalog.State.{MemoryCatalog}
use efloud.Catalog.Extension.{
  ExtendsLifecycle, ExtendsEvidence, ExtendsLifecycle-refl, ExtendsEvidence-refl,
  ExtendsLifecycle-trans, ExtendsEvidence-trans, ExtendsLifecycle-of_same, ExtendsEvidence-of_same,
  start_run-Extends,
}
use efloud.Catalog.History.{
  finish_run-Extends, start_operation-Extends, finish_operation-Extends, record_content-Extends,
  record_absence-Extends, bundle-Extends,
}
use efloud.Catalog.Frames.{
  start_run_frame, finish_run_frame, start_operation_frame, finish_operation_frame,
  record_content_frame, bundle_frame, record_absence_frame, record_validation_frame,
  record_source_snapshot_frame, register_source_frame, record_dataset_frame, SameLifecycle,
  SameEvidence, SameStored,
}
use efloud.Catalog.Kept.{
  ExtendsStored, ExtendsStored-refl, ExtendsStored-trans, ExtendsStored-of_same,
  register_source-Kept, record_validation-Kept, record_source_snapshot-Kept, record_dataset-Kept,
}
use efloud.Catalog.Calls.{
  Call, register, start, finish, start_op, finish_op, content, bundle, absence, validated, snapshot,
  dataset, execute, run_calls, IsWellFormed, execute-IsWellFormed,
}

pub record Extends (c d : MemoryCatalog) : Type 0 where
  pub lifecycle : ExtendsLifecycle c d
  pub evidence : ExtendsEvidence c d
  pub stored : ExtendsStored c d

module _ (c d : MemoryCatalog) where
  by_lifecycle : ExtendsLifecycle c d → SameEvidence c d × SameStored c d → Extends c d
  by_lifecycle l s = record {
    lifecycle = l;
    evidence = ExtendsEvidence-of_same s.0;
    stored = ExtendsStored-of_same s.1;
  }

  by_evidence : ExtendsEvidence c d → SameLifecycle c d × SameStored c d → Extends c d
  by_evidence l s = record {
    lifecycle = ExtendsLifecycle-of_same s.0;
    evidence = l;
    stored = ExtendsStored-of_same s.1;
  }

  by_stored : ExtendsStored c d → SameLifecycle c d × SameEvidence c d → Extends c d
  by_stored l s = record {
    lifecycle = ExtendsLifecycle-of_same s.0;
    evidence = ExtendsEvidence-of_same s.1;
    stored = l;
  }

module _ (digest : Json → String) where
  execute-Extends :
      (call : Call) (c : MemoryCatalog) → IsWellFormed c → Extends c (execute digest call c).1
  unfolding execute
  execute-Extends (register id d) c w =
      by_stored c _ (register_source-Kept digest c id d) (register_source_frame c digest id d)
  execute-Extends (start id t m) c w =
      by_lifecycle c _ (start_run-Extends c id t m) (start_run_frame c id t m)
  execute-Extends (finish id t s) c w =
      by_lifecycle c _ (finish_run-Extends c id t s) (finish_run_frame c id t s)
  execute-Extends (start_op id n) c w =
      by_lifecycle c _ (start_operation-Extends c id n) (start_operation_frame c id n)
  execute-Extends (finish_op id t s d) c w =
      by_lifecycle c _ (finish_operation-Extends c id t s d) (finish_operation_frame c id t s d)
  execute-Extends (content r) c w =
      by_evidence c _ (record_content-Extends c r) (record_content_frame c r)
  execute-Extends (bundle r o edges) c w =
      by_evidence c _ (bundle-Extends c r o edges w.evidence) (bundle_frame c r o edges)
  execute-Extends (absence a) c w =
      by_evidence c _ (record_absence-Extends c a) (record_absence_frame c a)
  execute-Extends (validated r) c w =
      by_stored c _ (record_validation-Kept digest c r) (record_validation_frame c r)
  execute-Extends (snapshot s) c w =
      by_stored c _ (record_source_snapshot-Kept digest c s) (record_source_snapshot_frame c s)
  execute-Extends (dataset d) c w =
      by_stored c _ (record_dataset-Kept digest c d) (record_dataset_frame c digest d)

  -- From a well-formed catalog no sequence of calls, those that raise included, changes or loses a
  -- content, an observation, an absence, a provenance list, a source snapshot, or a run or an
  -- operation that has reached a terminal status. A run or an operation that has not keeps what
  -- was recorded when it was started, and a dataset keeps its identity, its time and its members.
  -- A content with a result of a validator at a version keeps one, which may be a later one.
  pub run_calls-Extends :
      (calls : List Call) (c : MemoryCatalog)
      → IsWellFormed c
      → Extends c (run_calls digest calls c)
  unfolding run_calls
  run_calls-Extends [] c w = record {
    lifecycle = ExtendsLifecycle-refl c;
    evidence = ExtendsEvidence-refl c;
    stored = ExtendsStored-refl c;
  }
  run_calls-Extends (call ∷ calls) c w =
      let first = execute-Extends call c w in
      let rest =
        run_calls-Extends calls (execute digest call c).1 (execute-IsWellFormed digest call c w) in
      record {
        lifecycle = ExtendsLifecycle-trans first.lifecycle rest.lifecycle;
        evidence = ExtendsEvidence-trans first.evidence rest.evidence;
        stored = ExtendsStored-trans first.stored rest.stored;
      }
