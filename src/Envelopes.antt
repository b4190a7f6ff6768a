-- ===== src/Envelopes.antt =====
-- metadata_envelopes.py: source-definition histories and dataset specifications, kept in one JSON
-- object each and recognised by a marker.
pub mod RoundTrip
pub mod Integrity
use efloud.Prelude.{ℕ, String, Bool, true, false, List, [], ◌∷◌, Option, none, some, map}
use efloud.Prelude.{if◌then◌else◌, ◌==◌, string_eq}
use efloud.Prelude.Sort.{sort}
use efloud.Prelude.Text.{str_leb}
use efloud.Prelude.Dict
use efloud.Prelude.Dict.{Dict, values}
use efloud.Prelude.Keyed.{index, index_onto}
use efloud.Errors.{Result, ok, raise, Fault, ◌>>=◌}
use efloud.Json.{Json, JsonObject, str, int, obj, arr, end, field, get, array}
use efloud.Json.{mapping_or_none, string_or_none, list_or_none, is_one}
use efloud.Models.{SourceId, SourceDefinitionRevision, DatasetSpecification, stable_id}

abbrev pub history_marker : String
history_marker = "_efloud_source_definition_history"

abbrev pub specifications_marker : String
specifications_marker = "_efloud_dataset_specifications"

abbrev pub revision_key : SourceDefinitionRevision → String
revision_key r = r.revision_id

abbrev pub specification_key : DatasetSpecification → String
specification_key s = s.specification_id

-- `sorted(..., key=lambda item: str(item.revision_id))`
abbrev pub revision_leb : SourceDefinitionRevision → SourceDefinitionRevision → Bool
revision_leb a b = str_leb a.revision_id b.revision_id

abbrev pub specification_leb : DatasetSpecification → DatasetSpecification → Bool
specification_leb a b = str_leb a.specification_id b.specification_id

-- `_source_revision_payload`
abbrev pub source_revision_payload : SourceDefinitionRevision → Json
source_revision_payload r =
    obj (field "revision_id" (str r.revision_id) (field "definition" (obj r.definition) end))

-- `_dataset_specification_payload`
abbrev pub dataset_specification_payload : DatasetSpecification → Json
dataset_specification_payload s =
    obj (
      field "specification_id" (str s.specification_id) (field "definition" (obj s.definition) end))

-- What `decode_source_definition_history` returns.
pub record History : Type 0 where
  pub definition : JsonObject
  pub revision_id : String
  pub revisions : List SourceDefinitionRevision

-- The end of `decode_source_definition_history`, after the loop.
unfoldable pub select_current : String → List SourceDefinitionRevision → Result History
select_current current_raw revisions =
    let by_id = index revision_key revisions in
    elim (Dict.lookup current_raw by_id) [
      | none ↦ raise Fault.unknown_current_revision
      | some current ↦ ok (record {
        definition = current.definition;
        revision_id = current.revision_id;
        revisions = sort revision_leb (values by_id);
      })
    ]

-- `ordered[0].definition`, of a list that is not empty.
abbrev pub first_definition : List DatasetSpecification → JsonObject
first_definition [] = end
first_definition (s ∷ ss) = s.definition

module _ (digest : Json → String) where
  unfoldable pub source_definition_revision_id : SourceId → JsonObject → String
  source_definition_revision_id source_id definition =
      stable_id digest "source-definition"
        (obj (field "source_id" (str source_id) (field "definition" (obj definition) end)))

  -- The body of the loop over `raw_revisions`.
  unfoldable pub decode_revision : SourceId → Json → Result SourceDefinitionRevision
  unfolding source_definition_revision_id
  decode_revision source_id raw = elim (mapping_or_none (some raw)) [
    | none ↦ raise Fault.malformed_revision
    | some mapping ↦ elim (string_or_none (get "revision_id" mapping)) [
      | none ↦ raise Fault.malformed_revision
      | some revision_id ↦ elim (mapping_or_none (get "definition" mapping)) [
        | none ↦ raise Fault.malformed_revision
        | some definition ↦
            if revision_id == source_definition_revision_id source_id definition
            then ok (record { revision_id = revision_id; definition = definition })
            else raise Fault.revision_identity_mismatch
      ]
    ]
  ]

  unfoldable pub decode_revisions : SourceId → List Json → Result (List SourceDefinitionRevision)
  unfolding decode_revision
  decode_revisions source_id [] = ok []
  decode_revisions source_id (raw ∷ raws) = do
    revision ← decode_revision source_id raw
    revisions ← decode_revisions source_id raws
    ok (revision ∷ revisions)

  unfoldable pub decode_source_definition_history : SourceId → JsonObject → Result History
  unfolding decode_revisions select_current
  decode_source_definition_history source_id payload =
      if is_one (get history_marker payload)
      then elim (list_or_none (get "revisions" payload)) [
        | none ↦ raise Fault.malformed_history
        | some raws ↦ elim (string_or_none (get "current_revision_id" payload)) [
          | none ↦ raise Fault.malformed_history
          | some current_raw ↦ do
            revisions ← decode_revisions source_id raws
            select_current current_raw revisions
        ]
      ]
      else let revision_id = source_definition_revision_id source_id payload in
        ok (record {
          definition = payload;
          revision_id = revision_id;
          revisions = record { revision_id = revision_id; definition = payload } ∷ [];
        })

  -- `{**existing by id, revision_id: revision}` of `source_definition_history_payload`.
  unfoldable pub merge_revision :
      SourceId → JsonObject → List SourceDefinitionRevision → Dict String SourceDefinitionRevision
  unfolding index Dict.insert source_definition_revision_id
  merge_revision source_id definition existing =
      let revision_id = source_definition_revision_id source_id definition in
      Dict.insert revision_id (record { revision_id = revision_id; definition = definition })
        (index revision_key existing)

  unfoldable pub source_definition_history_payload :
      SourceId → JsonObject → List SourceDefinitionRevision → JsonObject
  unfolding merge_revision sort
  source_definition_history_payload source_id definition existing = field history_marker (int 1) (
      field "current_revision_id" (str (source_definition_revision_id source_id definition)) (
        field "revisions"
          (arr (
            array (
              map source_revision_payload
                (sort revision_leb (values (merge_revision source_id definition existing))))))
          end))

  unfoldable pub dataset_specification_id : JsonObject → String
  dataset_specification_id definition = stable_id digest "dataset-specification" (obj definition)

  -- The body of the loop over `raw_specifications`.
  unfoldable pub decode_specification : Json → Result DatasetSpecification
  unfolding dataset_specification_id
  decode_specification raw = elim (mapping_or_none (some raw)) [
    | none ↦ raise Fault.malformed_specification
    | some mapping ↦ elim (string_or_none (get "specification_id" mapping)) [
      | none ↦ raise Fault.malformed_specification
      | some specification_id ↦ elim (mapping_or_none (get "definition" mapping)) [
        | none ↦ raise Fault.malformed_specification
        | some definition ↦
            if specification_id == dataset_specification_id definition
            then ok (record { specification_id = specification_id; definition = definition })
            else raise Fault.specification_identity_mismatch
      ]
    ]
  ]

  unfoldable pub decode_specifications : List Json → Result (List DatasetSpecification)
  unfolding decode_specification
  decode_specifications [] = ok []
  decode_specifications (raw ∷ raws) = do
    specification ← decode_specification raw
    specifications ← decode_specifications raws
    ok (specification ∷ specifications)

  unfoldable pub decode_dataset_specifications :
      JsonObject → Result (JsonObject × List DatasetSpecification)
  unfolding decode_specifications index sort
  decode_dataset_specifications payload =
      if is_one (get specifications_marker payload)
      then elim (list_or_none (get "specifications" payload)) [
        | none ↦ raise Fault.malformed_specifications
        | some [] ↦ raise Fault.malformed_specifications
        | some (raw ∷ raws) ↦ do
          specifications ← decode_specifications (raw ∷ raws)
          let ordered = sort specification_leb (values (index specification_key specifications))
          ok (first_definition ordered, ordered)
      ]
      else ok (
        payload,
        record { specification_id = dataset_specification_id payload; definition = payload } ∷ [],
      )

  unfoldable pub dataset_specifications_payload :
      JsonObject → List DatasetSpecification → JsonObject
  unfolding index Dict.insert sort
  dataset_specifications_payload definition existing =
      let specification_id = dataset_specification_id definition in
      let specifications =
        Dict.insert specification_id
          (let s : DatasetSpecification = record {
            specification_id = specification_id;
            definition = definition;
          } in
            s)
          (index specification_key existing) in
      field specifications_marker (int 1) (
        field "specifications"
          (arr (
            array
              (map dataset_specification_payload (sort specification_leb (values specifications)))))
          end)
