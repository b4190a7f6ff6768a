-- ===== src/Records.antt =====
-- metadata_store.py: the records that a catalog keeps.
use efloud.Prelude.{ℕ, String, Bool, true, false, List, [], ◌∷◌, ◌++◌, Option, none, some, ◌==◌}
use efloud.Prelude.{string_eq, option_eq, ◌&&◌}
use efloud.Prelude.Sort.{sort}
use efloud.Prelude.Dict.{values}
use efloud.Prelude.Keyed.{index, index_onto}
use efloud.Errors.{Result, ok, ◌>>=◌}
use efloud.Json.{Json, JsonObject, end, get, mapping_or_none}
use efloud.Models.{
  SourceId, RunId, OperationId, ContentId, ObservationId, ArtifactKey, SourceDefinitionRevision,
  DatasetSpecification,
}
use efloud.Envelopes.{
  decode_source_definition_history, decode_dataset_specifications, first_definition,
  specification_key, specification_leb,
}

pub record SourceRecord : Type 0 where
  pub source_id : SourceId
  pub definition : JsonObject
  pub revision_id : String
  pub revisions : List SourceDefinitionRevision

pub record RunRecord : Type 0 where
  pub run_id : RunId
  pub started_at : ℕ
  pub finished_at : Option ℕ
  pub status : String
  pub metadata : JsonObject

pub record OperationRecord : Type 0 where
  pub operation_id : OperationId
  pub run_id : RunId
  pub source_id : Option SourceId
  pub kind : String
  pub subject : String
  pub started_at : ℕ
  pub finished_at : Option ℕ
  pub status : String
  pub parameters : JsonObject
  pub details : JsonObject

pub record DatasetMemberRecord : Type 0 where
  pub artifact_key : ArtifactKey
  pub observation_id : ObservationId
  pub content_id : ContentId
  pub role : Option String

pub record DatasetRecord : Type 0 where
  pub dataset_id : String
  pub content_identity : String
  pub created_at : ℕ
  pub definition : JsonObject
  pub metadata : JsonObject
  pub members : List DatasetMemberRecord
  pub specifications : List DatasetSpecification
  pub specification_id : String

abbrev pub member_beq : DatasetMemberRecord → DatasetMemberRecord → Bool
member_beq a b =
    a.artifact_key == b.artifact_key
    && a.observation_id == b.observation_id
    && a.content_id == b.content_id
    && a.role == b.role

-- `existing.members == record.members`
abbrev pub members_beq : List DatasetMemberRecord → List DatasetMemberRecord → Bool
members_beq [] [] = true
members_beq [] (b ∷ bs) = false
members_beq (a ∷ rest) [] = false
members_beq (a ∷ rest) (b ∷ bs) = member_beq a b && members_beq rest bs

-- `ordered[0].specification_id`, of a list that is not empty.
abbrev pub first_specification_id : List DatasetSpecification → String
first_specification_id [] = ""
first_specification_id (s ∷ ss) = s.specification_id

-- `dict(canonical_metadata) if canonical_metadata is not None else {}`
abbrev pub metadata_of : JsonObject → JsonObject
metadata_of definition = elim (mapping_or_none (get "metadata" definition)) [
  | none ↦ end
  | some m ↦ m
]

module _ (digest : Json → String) where
  -- `SourceRecord(source_id=..., definition=...)`
  unfoldable pub source_record : SourceId → JsonObject → Result SourceRecord
  unfolding decode_source_definition_history
  source_record source_id payload = do
    history ← decode_source_definition_history digest source_id payload
    ok (record {
      source_id = source_id;
      definition = history.definition;
      revision_id = history.revision_id;
      revisions = history.revisions;
    })

  -- The specifications decoded and those given, by identifier and in order.
  unfoldable pub merge_specifications :
      List DatasetSpecification → List DatasetSpecification → List DatasetSpecification
  unfolding index sort
  merge_specifications decoded given =
      sort specification_leb
        (values (index_onto specification_key (index specification_key decoded) given))

  -- `DatasetRecord.__post_init__`; the record comes with its fields as they were given.
  unfoldable pub canonical_dataset : DatasetRecord → Result DatasetRecord
  unfolding decode_dataset_specifications merge_specifications
  canonical_dataset r = do
    decoded ← decode_dataset_specifications digest r.definition
    let ordered = merge_specifications decoded.1 r.specifications
    let definition = first_definition ordered
    ok (record r {
      definition = definition;
      metadata = metadata_of definition;
      specifications = ordered;
      specification_id = first_specification_id ordered;
    })

  -- `DatasetRecord.with_specifications`
  unfoldable pub with_specifications :
      DatasetRecord → List DatasetSpecification → Result DatasetRecord
  unfolding canonical_dataset
  with_specifications r more =
      canonical_dataset (record r { specifications = r.specifications ++ more })
