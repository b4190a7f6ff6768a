-- ===== src/Repository/Observations.antt =====
-- Contents, observations and absences of `Repository`.
use efloud.Prelude.{ℕ, String, Bool, true, false, List, [], ◌∷◌, Option, none, some, not, map}
use efloud.Prelude.{if◌then◌else◌, ◌==◌, string_eq, option_eq}
use efloud.Prelude.Dict.{lookup}
use efloud.Errors.{ok, raise, Fault}
use efloud.Json.{Json, JsonObject, bool, str, put, get, string_or_none}
use efloud.Models.{
  SourceId, RunId, OperationId, ContentId, ObservationId, ArtifactKey, ContentRef,
  ArtifactObservation, ArtifactAbsence, ProvenanceEdge,
}
use efloud.Inventory.{AbsenceEvidence}
use efloud.Payloads.{observation_id_for, absence_id_for, absence_evidence_to_dict}
use efloud.Catalog
use efloud.Catalog.Evidence
use efloud.Catalog.Evidence.{record_content, record_observation_bundle, observations_for}
use efloud.Repository.State.{
  RepositoryState, BlobStore, Method, ◌>>=◌, lift, read, raise_if, demand, catalog_call,
  require_active, put_blob,
}
use efloud.Repository.Runs.{source_evidence}

-- The arguments that `ingest_bytes` and `observe_content` share, with the time resolved.
pub record Observed : Type 0 where
  pub artifact_key : ArtifactKey
  pub run_id : RunId
  pub operation_id : OperationId
  pub source_id : Option SourceId
  pub observed_at : ℕ
  pub source_path : Option String
  pub upstream_locator : Option String
  pub upstream_modified_at : Option ℕ
  pub upstream_version : Option String
  pub metadata : JsonObject
  pub inputs : List ObservationId

abbrev pub edge_to : ObservationId → ObservationId → ProvenanceEdge
edge_to output input = record {
  output_observation_id = output;
  input_observation_id = input;
  relationship = "derived-from";
}

-- `next(o for o in reversed(os) if ...)`: the last that matches.
abbrev pub last_some {ℓ} : {A : Type ℓ} → (A → Bool) → List A → Option A
last_some p [] = none
last_some p (x ∷ xs) =
    let rest = last_some p xs in elim rest [ some y ↦ some y | none ↦ if p x then some x else none ]

abbrev pub has_derivation : String → ArtifactObservation → Bool
has_derivation key o = string_or_none (get "derivation_key" o.metadata) == some key

abbrev pub content_of : Option ArtifactObservation → Option ContentId
content_of none = none
content_of (some o) = some o.content_id

module _ {Blobs Data : Type 0} (digest : Json → String) (store : BlobStore Blobs Data) where
  -- `_record_content_observation`
  unfoldable pub record_content_observation :
      ContentRef → Option String → Observed → Method Blobs ArtifactObservation
  unfolding observation_id_for source_evidence
  record_content_observation content media_type a = do
    metadata ← source_evidence digest a.metadata a.source_id
    let observation_id =
        observation_id_for digest a.artifact_key content.content_id a.run_id a.operation_id
          a.observed_at a.source_path a.upstream_locator
    let observation : ArtifactObservation = record {
      observation_id = observation_id;
      artifact_key = a.artifact_key;
      content_id = content.content_id;
      source_id = a.source_id;
      run_id = a.run_id;
      operation_id = a.operation_id;
      observed_at = a.observed_at;
      source_path = a.source_path;
      upstream_locator = a.upstream_locator;
      upstream_modified_at = a.upstream_modified_at;
      upstream_version = a.upstream_version;
      media_type = media_type;
      metadata = metadata;
    }
    recorded ←
        catalog_call
          (record_observation_bundle content observation (map (edge_to observation_id) a.inputs))
    lift (ok observation)

  -- `store_bytes_content`
  unfoldable pub store_bytes_content : Data → Option String → Method Blobs ContentRef
  unfolding require_active
  store_bytes_content payload media_type = do
    writable ← require_active
    content ← put_blob store payload media_type
    recorded ← catalog_call (record_content content)
    lift (ok content)

  -- `ingest_bytes`
  unfoldable pub ingest_bytes : Data → Option String → Observed → Method Blobs ArtifactObservation
  unfolding require_active record_content_observation
  ingest_bytes payload media_type a = do
    writable ← require_active
    content ← put_blob store payload media_type
    record_content_observation content media_type a

  -- `observe_content`, without a materialization.
  unfoldable pub observe_content : ContentId → Observed → Method Blobs ArtifactObservation
  unfolding require_active record_content_observation
  observe_content content_id a = do
    writable ← require_active
    content ← read (λ s. demand Fault.unknown_content (lookup content_id s.catalog.contents))
    available ←
        read
          (λ s. if store.contains content_id s.blobs then ok tt else raise Fault.blob_unavailable)
    record_content_observation content content.media_type a

  -- `reusable_derived_content`
  unfoldable pub reusable_derived_content :
      String → ArtifactKey → RepositoryState Blobs → Option ContentId
  unfolding observations_for
  reusable_derived_content derivation_key artifact_key s =
      content_of
        (last_some (has_derivation derivation_key) (observations_for artifact_key s.catalog))

  -- A derived artifact has no source and no upstream.
  abbrev pub with_metadata : Observed → JsonObject → Observed
  with_metadata a metadata = record a {
    source_id = none;
    source_path = none;
    upstream_locator = none;
    upstream_modified_at = none;
    upstream_version = none;
    metadata = metadata;
  }

  -- What is recorded for a derivation key: the reusable content, or else the bytes.
  unfoldable pub record_keyed :
      Data
      → Option String
      → JsonObject
      → Observed
      → Option ContentId
      → Method Blobs ArtifactObservation
  unfolding observe_content ingest_bytes
  record_keyed payload media_type metadata a (some content_id) =
      observe_content content_id (with_metadata a (put "derivation_reused" (bool true) metadata))
  record_keyed payload media_type metadata a none =
      ingest_bytes payload media_type
        (with_metadata a (put "derivation_reused" (bool false) metadata))

  -- `record_derived_bytes`: the content of an earlier derivation with the same key is taken again.
  unfoldable pub record_derived_bytes :
      Data → Option String → Option String → Observed → Method Blobs ArtifactObservation
  unfolding require_active reusable_derived_content record_keyed ingest_bytes
  record_derived_bytes payload media_type none a = do
    writable ← require_active
    ingest_bytes payload media_type (
        with_metadata a
          (put "derivation_reused" (bool false) (put "derived_artifact" (bool true) a.metadata)))
  record_derived_bytes payload media_type (some key) a = do
    writable ← require_active
    let metadata = put "derivation_key" (str key) (put "derived_artifact" (bool true) a.metadata)
    reusable ← read (λ s. ok (reusable_derived_content key a.artifact_key s))
    record_keyed payload media_type metadata a reusable

  abbrev pub or_evidence : Option String → Option String → Option String
  or_evidence none evidence = evidence
  or_evidence (some given) evidence = some given

  -- `expected is not None and actual != expected`
  abbrev pub conflicts_with : Option String → Option String → Bool
  conflicts_with none actual = false
  conflicts_with (some expected) actual = not (actual == some expected)

  -- `record_absence`
  unfoldable pub record_absence :
      ArtifactKey
      → AbsenceEvidence
      → RunId
      → OperationId
      → Option String
      → Option String
      → JsonObject
      → Method Blobs ArtifactAbsence
  unfolding require_active absence_id_for absence_evidence_to_dict source_evidence
  record_absence artifact_key evidence run_id operation_id source_path upstream_locator metadata =
      do
        writable ← require_active
        let path = or_evidence source_path evidence.source_path
        let locator = or_evidence upstream_locator evidence.locator
        same_path ← raise_if (conflicts_with evidence.source_path path) Fault.absence_path_conflict
        same_locator ←
            raise_if (conflicts_with evidence.locator locator) Fault.absence_locator_conflict
        payload ←
            source_evidence digest
              (put "absence_evidence" (absence_evidence_to_dict evidence) metadata)
              (some evidence.source_id)
        let absence : ArtifactAbsence = record {
          observation_id =
              absence_id_for digest artifact_key run_id operation_id evidence.observed_at path
                locator;
          artifact_key = artifact_key;
          source_id = some evidence.source_id;
          run_id = run_id;
          operation_id = operation_id;
          observed_at = evidence.observed_at;
          source_path = path;
          upstream_locator = locator;
          metadata = payload;
        }
        recorded ← catalog_call (Catalog.Evidence.record_absence absence)
        lift (ok absence)
