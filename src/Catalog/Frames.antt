-- ===== src/Catalog/Frames.antt =====
-- What each method leaves alone: the tables of the catalog fall into three groups, and a method
-- writes to one of them.
use mathlib.Core.Path.{subst₂}
use efloud.Prelude.{ℕ, String, List, ◌≡◌, arith, inl, inr}
use efloud.Errors.{Result-cases}
use efloud.Json.{Json, JsonObject}
use efloud.Models.{
  SourceId, RunId, OperationId, ContentRef, ArtifactObservation, ArtifactAbsence, ProvenanceEdge,
  ValidationResult, SourceSnapshot,
}
use efloud.Records.{DatasetRecord, source_record}
use efloud.Catalog.State.{MemoryCatalog}
use efloud.Catalog.Runs.{
  register_source, start_run, finish_run, NewOperation, start_operation, finish_operation,
}
use efloud.Catalog.Evidence.{record_content, record_observation_bundle, record_absence}
use efloud.Catalog.Snapshots.{record_validation, record_source_snapshot, record_dataset}
use efloud.Catalog.Lifecycle.{IsLifecycle}
use efloud.Catalog.Recorded.{IsEvidence}
use efloud.Catalog.Stored.{IsStored, record_dataset_cases}

pub record SameLifecycle (c d : MemoryCatalog) : Type 0 where
  pub runs : c.runs ≡ d.runs
  pub operations : c.operations ≡ d.operations

pub record SameEvidence (c d : MemoryCatalog) : Type 0 where
  pub contents : c.contents ≡ d.contents
  pub observations : c.observations ≡ d.observations
  pub absences : c.absences ≡ d.absences
  pub provenance : c.provenance ≡ d.provenance

pub record SameStored (c d : MemoryCatalog) : Type 0 where
  pub sources : c.sources ≡ d.sources
  pub validations : c.validations ≡ d.validations
  pub snapshots : c.snapshots ≡ d.snapshots
  pub datasets : c.datasets ≡ d.datasets

module _ {c d : MemoryCatalog} where
  pub IsLifecycle-of_same : SameLifecycle c d → IsLifecycle c → IsLifecycle d
  IsLifecycle-of_same s l =
      subst₂ (λ rs os. IsLifecycle (record d { runs = rs; operations = os })) s.runs s.operations
        (record {
          runs_keyed = l.runs_keyed;
          runs_distinct = l.runs_distinct;
          operations_keyed = l.operations_keyed;
          operations_distinct = l.operations_distinct;
          run_status = l.run_status;
          operation_status = l.operation_status;
          run_known = l.run_known;
          run_open = l.run_open;
        })

  pub IsEvidence-of_same : SameEvidence c d → IsEvidence c → IsEvidence d
  IsEvidence-of_same s l =
      subst₂ (λ cs os. IsEvidence (record d { contents = cs; observations = os })) s.contents
        s.observations
        (subst₂
          (λ bs ps. IsEvidence (record d {
            contents = c.contents;
            observations = c.observations;
            absences = bs;
            provenance = ps;
          }))
          s.absences s.provenance
          (record {
            contents_keyed = l.contents_keyed;
            observations_keyed = l.observations_keyed;
            observations_distinct = l.observations_distinct;
            absences_keyed = l.absences_keyed;
            absences_distinct = l.absences_distinct;
            exclusive = l.exclusive;
            content_known = l.content_known;
            provenance_known = l.provenance_known;
            provenance_output = l.provenance_output;
          }))

  pub IsStored-of_same : SameStored c d → IsStored c → IsStored d
  IsStored-of_same s l =
      subst₂ (λ ss vs. IsStored (record d { sources = ss; validations = vs })) s.sources
        s.validations
        (subst₂
          (λ ns ds. IsStored (record d {
            sources = c.sources;
            validations = c.validations;
            snapshots = ns;
            datasets = ds;
          }))
          s.snapshots s.datasets
          (record {
            sources_keyed = l.sources_keyed;
            sources_distinct = l.sources_distinct;
            validations_keyed = l.validations_keyed;
            validations_distinct = l.validations_distinct;
            snapshots_keyed = l.snapshots_keyed;
            snapshots_distinct = l.snapshots_distinct;
            datasets_keyed = l.datasets_keyed;
            datasets_distinct = l.datasets_distinct;
          }))

-- A method on runs and operations writes to those two tables alone.
abbrev KeepsOthers : MemoryCatalog → MemoryCatalog → Type 0
KeepsOthers c d = SameEvidence c d × SameStored c d

module _ (c : MemoryCatalog) where
  pub start_run_frame : (id : RunId) (t : ℕ) (m : JsonObject) → KeepsOthers c (start_run id t m c).1
  unfolding start_run
  start_run_frame id t m = ground arith

  pub finish_run_frame : (id : RunId) (t : ℕ) (s : String) → KeepsOthers c (finish_run id t s c).1
  unfolding finish_run
  finish_run_frame id t s = ground arith

  pub start_operation_frame :
      (id : OperationId) (n : NewOperation) → KeepsOthers c (start_operation id n c).1
  unfolding start_operation
  start_operation_frame id n = ground arith

  pub finish_operation_frame :
      (id : OperationId) (t : ℕ) (s : String) (d : JsonObject)
      → KeepsOthers c (finish_operation id t s d c).1
  unfolding finish_operation
  finish_operation_frame id t s d = ground arith

  pub record_content_frame :
      (r : ContentRef)
      → SameLifecycle c (record_content r c).1 × SameStored c (record_content r c).1
  unfolding record_content
  record_content_frame r = ground arith

  pub bundle_frame :
      (r : ContentRef) (o : ArtifactObservation) (edges : List ProvenanceEdge)
      → SameLifecycle c (record_observation_bundle r o edges c).1
        × SameStored c (record_observation_bundle r o edges c).1
  unfolding record_observation_bundle record_content
  bundle_frame r o edges = ground arith

  pub record_absence_frame :
      (a : ArtifactAbsence)
      → SameLifecycle c (record_absence a c).1 × SameStored c (record_absence a c).1
  unfolding record_absence
  record_absence_frame a = ground arith

  -- A method on the stored tables leaves the other two groups alone.
  abbrev KeepsRecords : MemoryCatalog → Type 0
  KeepsRecords d = SameLifecycle c d × SameEvidence c d

  pub record_validation_frame : (r : ValidationResult) → KeepsRecords (record_validation r c).1
  unfolding record_validation
  record_validation_frame r = ground arith

  pub record_source_snapshot_frame :
      (s : SourceSnapshot) → KeepsRecords (record_source_snapshot s c).1
  unfolding record_source_snapshot
  record_source_snapshot_frame s = ground arith

  pub register_source_frame :
      (digest : Json → String) (id : SourceId) (d : JsonObject)
      → KeepsRecords (register_source digest id d c).1
  unfolding register_source
  register_source_frame digest id d = elim (Result-cases (source_record digest id d)) [
    | inl (f, bad) ↦ rw (bad, register_source) (ground arith)
    | inr (s, good) ↦ rw (good, register_source) (ground arith)
  ]

  pub record_dataset_frame :
      (digest : Json → String) (r : DatasetRecord) → KeepsRecords (record_dataset digest r c).1
  record_dataset_frame digest r = elim (record_dataset_cases digest r c) [
    | inl (fresh, e) ↦ rw e (ground arith)
    | inr (inl (f, e)) ↦ rw e (ground arith)
    | inr (inr (old, new, found, same, alike, good, e)) ↦ rw e (ground arith)
  ]
