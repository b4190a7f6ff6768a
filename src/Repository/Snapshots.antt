-- ===== src/Repository/Snapshots.antt =====
-- Source snapshots and datasets of `Repository`.
use efloud.Prelude.{ℕ, String, Bool, List, [], Option, none, some, map}
use efloud.Prelude.{string_eq}
use efloud.Prelude.Sort.{sort}
use efloud.Prelude.Text.{str_leb}
use efloud.Prelude.Dict.{lookup}
use efloud.Errors.{Result, ok, Fault}
use efloud.Json.{Json, JsonObject, bool, int, str, obj, end, field, put, string_array}
use efloud.Models.{
  SourceId, RunId, SnapshotId, ArtifactObservation, SourceSnapshot, DatasetSpecification,
  ValidationResult, stable_id,
}
use efloud.Records.{DatasetRecord, with_specifications}
use efloud.Catalog
use efloud.Catalog.State.{MemoryCatalog}
use efloud.Catalog.Snapshots
use efloud.Datasets
use efloud.Datasets.Snapshots.{TreeEntry, snapshot_candidates}
use efloud.Datasets.Reader.{catalog_reader}
use efloud.Datasets.Resolve
use efloud.Datasets.Resolve.{
  DatasetDefinition, DatasetManifest, manifest_to_record, manifest_from_record,
}
use efloud.Repository.State.{Method, ◌>>=◌, lift, read, demand, catalog_call, require_active}
use efloud.Repository.Runs.{source_evidence}

module _ (digest : Json → String) where
  -- The snapshot before its evidence and its identifier are known.
  abbrev pub blank_snapshot : SourceId → RunId → ℕ → Bool → List String → SourceSnapshot
  blank_snapshot source_id run_id observed_at complete scope = record {
    snapshot_id = "";
    source_id = source_id;
    run_id = run_id;
    observed_at = observed_at;
    complete = complete;
    tree_id = none;
    scope = sort str_leb scope;
    evidence = end;
  }

  unfoldable pub snapshot_id_for : SourceSnapshot → SnapshotId
  snapshot_id_for s = stable_id digest "snapshot" (
      obj (
        field "source_id" (str s.source_id) (
          field "run_id" (str s.run_id) (
            field "observed_at" (int s.observed_at) (
              field "complete" (bool s.complete)
                (field "scope" (string_array s.scope) (field "evidence" (obj s.evidence) end)))))))

  -- The identifiers of the observations that the snapshot binds: those of its source and its run
  -- up to its time, which are the candidates that a dataset reads.
  abbrev pub bound_ids :
      (ArtifactObservation → ArtifactObservation → Bool)
      → (Json → String)
      → SourceSnapshot
      → MemoryCatalog
      → List String
  bound_ids equal str_json s c =
      map (λ o. o.observation_id)
        (snapshot_candidates equal str_json (catalog_reader (λ id. []) c) s)

  abbrev pub bind_evidence : SourceSnapshot → JsonObject → List String → SourceSnapshot
  bind_evidence blank payload ids =
      let s : SourceSnapshot = record blank {
        evidence = put "observation_ids" (string_array ids) payload;
      } in
      record s { snapshot_id = snapshot_id_for s }

  unfoldable pub with_existing : Option DatasetRecord → DatasetRecord → Result DatasetRecord
  unfolding with_specifications
  with_existing none r = ok r
  with_existing (some existing) r = with_specifications digest r existing.specifications

module _ {Blobs : Type 0} (digest : Json → String) where
  -- `record_source_snapshot`
  unfoldable pub record_source_snapshot :
      (ArtifactObservation → ArtifactObservation → Bool)
      → (Json → String)
      → SourceId
      → RunId
      → Bool
      → List String
      → ℕ
      → JsonObject
      → Method Blobs SourceSnapshot
  unfolding require_active source_evidence snapshot_candidates snapshot_id_for
  record_source_snapshot equal str_json source_id run_id complete scope observed_at evidence = do
    writable ← require_active
    payload ← source_evidence digest evidence (some source_id)
    let blank = blank_snapshot digest source_id run_id observed_at complete scope
    ids ← read (λ s. ok (bound_ids digest equal str_json blank s.catalog))
    let snapshot = bind_evidence digest blank payload ids
    recorded ← catalog_call (Catalog.Snapshots.record_source_snapshot snapshot)
    lift (ok snapshot)

  -- `resolve_dataset`; `tree_entries` reads the tree store.
  unfoldable pub resolve_dataset :
      (ArtifactObservation → ArtifactObservation → Bool)
      → (Json → String)
      → (String → List TreeEntry)
      → DatasetDefinition
      → ℕ
      → Method Blobs DatasetManifest
  unfolding require_active Datasets.Resolve.resolve_dataset manifest_to_record with_existing
  resolve_dataset equal str_json tree_entries definition created_at = do
    writable ← require_active
    manifest ← read (λ s.
        Datasets.Resolve.resolve_dataset equal str_json digest
          (catalog_reader tree_entries s.catalog) definition created_at)
    fresh ← lift (manifest_to_record digest manifest)
    merged ← read (λ s. with_existing digest (lookup manifest.dataset_id s.catalog.datasets) fresh)
    recorded ← catalog_call (Catalog.Snapshots.record_dataset digest merged)
    lift (ok manifest)

  -- `dataset`
  unfoldable pub dataset : String → Method Blobs DatasetManifest
  unfolding manifest_from_record
  dataset dataset_id = do
    r ← read (λ s. demand Fault.unknown_dataset (lookup dataset_id s.catalog.datasets))
    lift (ok (manifest_from_record r))

  -- `dataset_specifications`
  unfoldable pub dataset_specifications : String → Method Blobs (List DatasetSpecification)
  dataset_specifications dataset_id = do
    r ← read (λ s. demand Fault.unknown_dataset (lookup dataset_id s.catalog.datasets))
    lift (ok r.specifications)

module _ {Blobs : Type 0} where
  -- `record_validation`
  unfoldable pub record_validation : ValidationResult → Method Blobs (Unit {0})
  unfolding require_active
  record_validation result = do
    writable ← require_active
    catalog_call (Catalog.Snapshots.record_validation result)
