-- ===== src/Models.antt =====
-- repository_models.py: the records of the repository. Identifiers are strings; times are counted
-- in a fixed unit.
use efloud.Prelude.{ℕ, String, ◌<>◌, Bool, false, List, Option, none, some, ◌&&◌}
use efloud.Prelude.{if◌then◌else◌, ◌==◌, string_eq, not}
use efloud.Errors.{Result, ok, raise, Fault}
use efloud.Json.{Json, JsonObject, str, end, field, get, string_or_none}

abbrev pub SourceId : Type 0
SourceId = String

abbrev pub RunId : Type 0
RunId = String

abbrev pub OperationId : Type 0
OperationId = String

abbrev pub ContentId : Type 0
ContentId = String

abbrev pub ObservationId : Type 0
ObservationId = String

abbrev pub ArtifactKey : Type 0
ArtifactKey = String

abbrev pub SnapshotId : Type 0
SnapshotId = String

pub record SourceDefinitionRevision : Type 0 where
  pub revision_id : String
  pub definition : JsonObject

pub record DatasetSpecification : Type 0 where
  pub specification_id : String
  pub definition : JsonObject

pub record ProducerRef : Type 0 where
  pub producer_id : String
  pub version : String

pub record ContentRef : Type 0 where
  pub content_id : ContentId
  pub byte_size : ℕ
  pub media_type : Option String

pub record ArtifactObservation : Type 0 where
  pub observation_id : ObservationId
  pub artifact_key : ArtifactKey
  pub content_id : ContentId
  pub source_id : Option SourceId
  pub run_id : RunId
  pub operation_id : OperationId
  pub observed_at : ℕ
  pub source_path : Option String
  pub upstream_locator : Option String
  pub upstream_modified_at : Option ℕ
  pub upstream_version : Option String
  pub media_type : Option String
  pub metadata : JsonObject

pub record ArtifactAbsence : Type 0 where
  pub observation_id : ObservationId
  pub artifact_key : ArtifactKey
  pub source_id : Option SourceId
  pub run_id : RunId
  pub operation_id : OperationId
  pub observed_at : ℕ
  pub source_path : Option String
  pub upstream_locator : Option String
  pub metadata : JsonObject

pub data ArtifactState : Type 0 where
  present : ArtifactObservation → ArtifactState
  absent : ArtifactAbsence → ArtifactState

pub record ProvenanceEdge : Type 0 where
  pub output_observation_id : ObservationId
  pub input_observation_id : ObservationId
  pub relationship : String

pub data ValidationStatus : Type 0 where
  passed failed error : ValidationStatus

pub record ValidationResult : Type 0 where
  pub content_id : ContentId
  pub validator : String
  pub validator_version : String
  pub checked_at : ℕ
  pub status : ValidationStatus
  pub details : JsonObject

pub record SourceSnapshot : Type 0 where
  pub snapshot_id : SnapshotId
  pub source_id : SourceId
  pub run_id : RunId
  pub observed_at : ℕ
  pub complete : Bool
  pub tree_id : Option String
  pub scope : List String
  pub evidence : JsonObject

-- `text.partition(":")`: what stands before the first colon, if there is one, and after it.
unfoldable pub partition_colon : String → Option (String × String)
partition_colon String.[] = none
partition_colon (String.◌∷◌ c s) =
    if String.◌∷◌ c String.[] == ":"
    then some ("", s)
    else elim (partition_colon s) [ none ↦ none | some (a, b) ↦ some (String.◌∷◌ c a, b) ]

-- A namespaced identifier has a colon with text on both sides.
unfoldable pub is_namespaced : String → Bool
unfolding partition_colon
is_namespaced id = elim (partition_colon id) [
  | none ↦ false
  | some (namespace, name) ↦ not (namespace == "") && not (name == "")
]

-- `ProducerRef(producer_id, version)`
unfoldable pub producer_ref : String → String → Result ProducerRef
unfolding is_namespaced
producer_ref producer_id version =
    if is_namespaced producer_id
    then if version == ""
      then raise Fault.producer_unversioned
      else ok (record { producer_id = producer_id; version = version })
    else raise Fault.producer_not_namespaced

-- `ProducerRef.from_mapping`
unfoldable pub producer_from_mapping : JsonObject → Result ProducerRef
unfolding producer_ref
producer_from_mapping value = elim (string_or_none (get "producer_id" value)) [
  | none ↦ raise Fault.producer_fields_missing
  | some producer_id ↦ elim (string_or_none (get "version" value)) [
    | none ↦ raise Fault.producer_fields_missing
    | some version ↦ producer_ref producer_id version
  ]
]

-- `ProducerRef.to_dict`
unfoldable pub producer_to_dict : ProducerRef → JsonObject
producer_to_dict p = field "producer_id" (str p.producer_id) (field "version" (str p.version) end)

-- `stable_id`; `digest` stands for SHA-256 over canonical JSON, in hexadecimal.
abbrev pub stable_id : (Json → String) → String → Json → String
stable_id digest prefix value = prefix <> ":" <> digest value
