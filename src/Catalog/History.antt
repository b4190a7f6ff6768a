-- ===== src/Catalog/History.antt =====
-- The calls of catalog/memory.py, as extensions of the state.
use efloud.Prelude.{ℕ, String, List, some, refl, arith, inl, inr}
use efloud.Prelude.{◌==◌, string_eq, Bool-cases}
use efloud.Prelude.Dict.{lookup-insert}
use efloud.Json.{JsonObject}
use efloud.Models.{
  RunId, OperationId, ContentRef, ArtifactObservation, ArtifactAbsence, ProvenanceEdge,
}
use efloud.Records.{RunRecord, OperationRecord}
use efloud.Catalog.State.{MemoryCatalog}
use efloud.Catalog.Runs.{finish_run, NewOperation, start_operation, finish_operation}
use efloud.Catalog.Evidence.{
  record_content, insert_observation, record_observation_bundle, record_absence, is_recorded,
}
use efloud.Catalog.Cases.{
  finish_run_cases, close_run, CanFinish, start_operation_cases, finish_operation_cases,
  close_operation, CanFinishOperation, open_operation, CanStart,
}
use efloud.Catalog.Recorded.{
  IsEvidence, record_content_cases, bundle_cases, insert_observation_cases,
  record_content-IsEvidence,
}
use efloud.Catalog.Extension.{
  ExtendsLifecycle, ExtendsEvidence, ExtendsLifecycle-refl, ExtendsEvidence-refl,
  ExtendsEvidence-trans, not_terminal, not_terminal_operation,
}

module _ (c : MemoryCatalog) where
  close_run-Extends :
      (id : RunId) (t : ℕ) (s : String) (run : RunRecord)
      → CanFinish c id s run
      → ExtendsLifecycle c (close_run id t s run c)
  close_run-Extends id t s run k = record {
    run_kept = λ j r h. elim (Bool-cases (j == id)) [
      | inl same ↦ (
        record run { finished_at = some t; status = s },
        rw (lookup-insert, same),
        ground (arith, k.found, string_eq.beq_iff j id),
        ground (arith, k.found, string_eq.beq_iff j id),
        ground (arith, k.found, string_eq.beq_iff j id),
      )
      | inr other ↦ (r, rw (lookup-insert, other) h, refl, refl, refl)
    ];
    run_final = λ j r h f.
        rw lookup-insert
          (ground (arith, string_eq.beq_iff j id, k.found, k.running, not_terminal r.status));
    operation_kept = λ j o h. (o, h, refl, refl, refl, refl);
    operation_final = λ j o h f. h;
  }

  open_operation-Extends :
      (id : OperationId) (n : NewOperation) (run : RunRecord)
      → CanStart c id n run
      → ExtendsLifecycle c (open_operation id n c)
  open_operation-Extends id n run k = record {
    run_kept = λ j r h. (r, h, refl, refl, refl);
    run_final = λ j r h f. h;
    operation_kept = λ j o h. (
      o,
      rw lookup-insert (ground (arith, string_eq.beq_iff j id, k.fresh)),
      refl,
      refl,
      refl,
      refl,
    );
    operation_final = λ j o h f. rw lookup-insert (ground (arith, string_eq.beq_iff j id, k.fresh));
  }

  close_operation-Extends :
      (id : OperationId) (t : ℕ) (s : String) (d : JsonObject) (o : OperationRecord)
      → CanFinishOperation c id s o
      → ExtendsLifecycle c (close_operation id t s d o c)
  close_operation-Extends id t s d o k = record {
    run_kept = λ j r h. (r, h, refl, refl, refl);
    run_final = λ j r h f. h;
    operation_kept = λ j p h. elim (Bool-cases (j == id)) [
      | inl same ↦ (
        record o { finished_at = some t; status = s; details = d },
        rw (lookup-insert, same),
        ground (arith, k.found, string_eq.beq_iff j id),
        ground (arith, k.found, string_eq.beq_iff j id),
        ground (arith, k.found, string_eq.beq_iff j id),
        ground (arith, k.found, string_eq.beq_iff j id),
      )
      | inr other ↦ (p, rw (lookup-insert, other) h, refl, refl, refl, refl)
    ];
    operation_final = λ j p h f. rw lookup-insert (
        ground
          (arith, string_eq.beq_iff j id, k.found, k.running, not_terminal_operation p.status));
  }

  pub finish_run-Extends :
      (id : RunId) (t : ℕ) (s : String) → ExtendsLifecycle c (finish_run id t s c).1
  finish_run-Extends id t s = elim (finish_run_cases id t s c) [
    | inl (f, e) ↦ rw e (ExtendsLifecycle-refl c)
    | inr (run, k, e) ↦ rw e (close_run-Extends id t s run k)
  ]

  pub start_operation-Extends :
      (id : OperationId) (n : NewOperation) → ExtendsLifecycle c (start_operation id n c).1
  start_operation-Extends id n = elim (start_operation_cases id n c) [
    | inl (f, e) ↦ rw e (ExtendsLifecycle-refl c)
    | inr (run, k, e) ↦ rw e (open_operation-Extends id n run k)
  ]

  pub finish_operation-Extends :
      (id : OperationId) (t : ℕ) (s : String) (d : JsonObject)
      → ExtendsLifecycle c (finish_operation id t s d c).1
  finish_operation-Extends id t s d = elim (finish_operation_cases id t s d c) [
    | inl (f, e) ↦ rw e (ExtendsLifecycle-refl c)
    | inr (o, k, e) ↦ rw e (close_operation-Extends id t s d o k)
  ]

  pub record_content-Extends : (r : ContentRef) → ExtendsEvidence c (record_content r c).1
  record_content-Extends r = elim (record_content_cases r c) [
    | inl e ↦ rw e (ExtendsEvidence-refl c)
    | inr (inl (old, e)) ↦ rw e (ExtendsEvidence-refl c)
    | inr (inr (fresh, e)) ↦ rw e (record {
      content_kept = λ id x h. rw lookup-insert (ground (arith, string_eq.beq_iff id r.content_id));
      observation_kept = λ id o h. h;
      absence_kept = λ id a h. h;
      provenance_kept = λ id es h. h;
    })
  ]

  pub record_absence-Extends : (a : ArtifactAbsence) → ExtendsEvidence c (record_absence a c).1
  unfolding record_absence
  record_absence-Extends a = elim (Bool-cases (is_recorded a.observation_id c)) [
    | inl old ↦ rw old (ExtendsEvidence-refl c)
    | inr fresh ↦ rw fresh (record {
      content_kept = λ id x h. h;
      observation_kept = λ id o h. h;
      absence_kept =
          λ id x h. rw lookup-insert (ground (arith, string_eq.beq_iff id a.observation_id));
      provenance_kept = λ id es h. h;
    })
  ]

  insert_observation-Extends :
      (o : ArtifactObservation) (edges : List ProvenanceEdge)
      → IsEvidence c
      → ExtendsEvidence c (insert_observation o edges c).1
  insert_observation-Extends o edges l = elim (insert_observation_cases o edges c) [
    | inl (f, e) ↦ rw e (ExtendsEvidence-refl c)
    | inr (k, e) ↦ rw e (record {
      content_kept = λ id x h. h;
      observation_kept = λ id x h.
          rw lookup-insert (ground (arith, string_eq.beq_iff id o.observation_id, k.unobserved));
      absence_kept = λ id x h. h;
      provenance_kept = λ id es h. rw lookup-insert (
          ground
            (arith, string_eq.beq_iff id o.observation_id, k.unobserved, l.provenance_known id));
    })
  ]

module _ (c : MemoryCatalog) where
  pub bundle-Extends :
      (r : ContentRef) (o : ArtifactObservation) (edges : List ProvenanceEdge)
      → IsEvidence c
      → ExtendsEvidence c (record_observation_bundle r o edges c).1
  bundle-Extends r o edges l = elim (bundle_cases r o edges c) [
    | inl e ↦ rw e (ExtendsEvidence-refl c)
    | inr (inl (f, e)) ↦ rw e (record_content-Extends c r)
    | inr (inr (same, good, e)) ↦ rw e (
        ExtendsEvidence-trans (record_content-Extends c r) (
          insert_observation-Extends (record_content r c).1 o edges
            (record_content-IsEvidence c l r)))
  ]
