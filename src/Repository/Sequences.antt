-- ===== src/Repository/Sequences.antt =====
-- Sequences of calls of the repository, and the catalog that they leave.
use efloud.Prelude.{ℕ, String, Bool, List, [], ◌∷◌, Option}
use efloud.Prelude.{string_eq}
use efloud.Json.{Json, JsonObject}
use efloud.Models.{
  SourceId, RunId, OperationId, ContentId, ArtifactKey, ArtifactObservation, ProducerRef,
  ValidationResult,
}
use efloud.Inventory.{AbsenceEvidence}
use efloud.Catalog.Runs.{NewOperation}
use efloud.Datasets.Snapshots.{TreeEntry}
use efloud.Datasets.Resolve.{DatasetDefinition}
use efloud.Repository
use efloud.Repository.State.{RepositoryState, BlobStore}
use efloud.Repository.Runs
use efloud.Repository.Observations.{
  Observed, store_bytes_content, ingest_bytes, observe_content, record_derived_bytes,
  record_absence,
}
use efloud.Repository.Snapshots

-- The writing methods of the repository, but for those that read a path and those of trees and
-- materializations, with their arguments.
pub data RepositoryCall (Data : Type 0) : Type 0 where
  register_source : SourceId → JsonObject → RepositoryCall Data
  start_run : List SourceId → ℕ → JsonObject → RepositoryCall Data
  finish_run : RunId → String → ℕ → RepositoryCall Data
  start_operation : Option ProducerRef → NewOperation → RepositoryCall Data
  finish_operation : OperationId → String → ℕ → JsonObject → RepositoryCall Data
  store_content : Data → Option String → RepositoryCall Data
  ingest : Data → Option String → Observed → RepositoryCall Data
  observe : ContentId → Observed → RepositoryCall Data
  derive : Data → Option String → Option String → Observed → RepositoryCall Data
  absent_artifact :
      ArtifactKey
      → AbsenceEvidence
      → RunId
      → OperationId
      → Option String
      → Option String
      → JsonObject
      → RepositoryCall Data
  take_snapshot : SourceId → RunId → Bool → List String → ℕ → JsonObject → RepositoryCall Data
  freeze : DatasetDefinition → ℕ → RepositoryCall Data
  validate : ValidationResult → RepositoryCall Data

module _ (digest : Json → String) (normalize : String → String)
    (equal : ArtifactObservation → ArtifactObservation → Bool) (str_json : Json → String)
    (tree_entries : String → List TreeEntry) {Blobs Data : Type 0}
    (store : BlobStore Blobs Data) where
  -- The state that a call leaves, whether it returns or raises.
  unfoldable pub perform : RepositoryCall Data → RepositoryState Blobs → RepositoryState Blobs
  unfolding Repository.Runs.register_source Repository.Runs.start_run Repository.Runs.finish_run
      Repository.Runs.start_operation Repository.Runs.finish_operation store_bytes_content
      ingest_bytes observe_content record_derived_bytes record_absence
      Repository.Snapshots.record_source_snapshot Repository.Snapshots.resolve_dataset
      Repository.Snapshots.record_validation
  perform (register_source id definition) s =
      (Repository.Runs.register_source digest id definition s).1
  perform (start_run ids t metadata) s = (Repository.Runs.start_run digest ids t metadata s).1
  perform (finish_run id status t) s = (Repository.Runs.finish_run digest id status t s).1
  perform (start_operation producer n) s =
      (Repository.Runs.start_operation digest normalize producer n s).1
  perform (finish_operation id status t details) s =
      (Repository.Runs.finish_operation digest id status t details s).1
  perform (store_content payload media_type) s =
      (store_bytes_content digest store payload media_type s).1
  perform (ingest payload media_type a) s = (ingest_bytes digest store payload media_type a s).1
  perform (observe id a) s = (observe_content digest store id a s).1
  perform (derive payload media_type key a) s =
      (record_derived_bytes digest store payload media_type key a s).1
  perform (absent_artifact key evidence run_id operation_id path locator metadata) s =
      (record_absence digest store key evidence run_id operation_id path locator metadata s).1
  perform (take_snapshot source_id run_id complete scope t evidence) s =
      (Repository.Snapshots.record_source_snapshot digest equal str_json source_id run_id complete
        scope t evidence s).1
  perform (freeze d t) s =
      (Repository.Snapshots.resolve_dataset digest equal str_json tree_entries d t s).1
  perform (validate result) s = (Repository.Snapshots.record_validation result s).1

  unfoldable pub perform_all :
      List (RepositoryCall Data) → RepositoryState Blobs → RepositoryState Blobs
  unfolding perform
  perform_all [] s = s
  perform_all (r ∷ rs) s = perform_all rs (perform r s)
