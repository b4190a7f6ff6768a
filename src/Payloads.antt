-- ===== src/Payloads.antt =====
-- The serialisations and the identifiers of repository_models.py, and the serialisations of
-- inventory.py. A field that may be `None` is left out, or written as null where the code does.
use efloud.Prelude.{ℕ, String, true, Option, none, some, map, List}
use efloud.Json.{
  Json, bool, int, str, arr, obj, end, field, array, put_some, string_array, str_option, or_null,
}
use efloud.Models.{
  RunId, OperationId, ContentId, ObservationId, ArtifactKey, SourceDefinitionRevision,
  DatasetSpecification, ContentRef, ArtifactObservation, ArtifactAbsence, ValidationStatus, passed,
  failed, error, ValidationResult, SourceSnapshot, stable_id,
}
use efloud.Inventory.{
  InventoryCoverage, Reliability, weak, strong, ChangeToken, IntegrityExpectation, InventoryItem,
  SourceInventory, AbsenceEvidenceKind, complete_inventory, direct_negative, AbsenceEvidence,
}

abbrev pub int_option : Option ℕ → Option Json
int_option none = none
int_option (some n) = some (int n)

-- `SourceDefinitionRevision.to_dict`
unfoldable pub revision_to_dict : SourceDefinitionRevision → Json
revision_to_dict r =
    obj (field "revision_id" (str r.revision_id) (field "definition" (obj r.definition) end))

-- `DatasetSpecification.to_dict`
unfoldable pub specification_to_dict : DatasetSpecification → Json
specification_to_dict s =
    obj (
      field "specification_id" (str s.specification_id) (field "definition" (obj s.definition) end))

-- `ContentRef.to_dict`
unfoldable pub content_to_dict : ContentRef → Json
content_to_dict c = obj (
    put_some "media_type" (str_option c.media_type)
      (field "content_id" (str c.content_id) (field "byte_size" (int c.byte_size) end)))

-- `ArtifactObservation.to_dict`
unfoldable pub observation_to_dict : ArtifactObservation → Json
observation_to_dict o = obj (
    put_some "media_type" (str_option o.media_type) (
      put_some "upstream_version" (str_option o.upstream_version) (
        put_some "upstream_modified_at" (int_option o.upstream_modified_at) (
          put_some "upstream_locator" (str_option o.upstream_locator) (
            put_some "source_path" (str_option o.source_path) (
              put_some "source_id" (str_option o.source_id) (
                field "observation_id" (str o.observation_id) (
                  field "artifact_key" (str o.artifact_key) (
                    field "content_id" (str o.content_id) (
                      field "run_id" (str o.run_id) (
                        field "operation_id" (str o.operation_id) (
                          field "observed_at" (int o.observed_at)
                            (field "metadata" (obj o.metadata) end)))))))))))))

-- `ArtifactAbsence.to_dict`
unfoldable pub absence_to_dict : ArtifactAbsence → Json
absence_to_dict a = obj (
    put_some "upstream_locator" (str_option a.upstream_locator) (
      put_some "source_path" (str_option a.source_path) (
        put_some "source_id" (str_option a.source_id) (
          field "observation_id" (str a.observation_id) (
            field "artifact_key" (str a.artifact_key) (
              field "run_id" (str a.run_id) (
                field "operation_id" (str a.operation_id) (
                  field "observed_at" (int a.observed_at)
                    (field "absent" (bool true) (field "metadata" (obj a.metadata) end))))))))))

abbrev pub validation_status_name : ValidationStatus → String
validation_status_name passed = "passed"
validation_status_name failed = "failed"
validation_status_name error = "error"

-- `ValidationResult.to_dict`
unfoldable pub validation_to_dict : ValidationResult → Json
validation_to_dict v = obj (
    field "content_id" (str v.content_id) (
      field "validator" (str v.validator) (
        field "validator_version" (str v.validator_version) (
          field "checked_at" (int v.checked_at) (
            field "status" (str (validation_status_name v.status))
              (field "details" (obj v.details) end))))))

-- `SourceSnapshot.to_dict`
unfoldable pub snapshot_to_dict : SourceSnapshot → Json
snapshot_to_dict s = obj (
    put_some "tree_id" (str_option s.tree_id) (
      field "snapshot_id" (str s.snapshot_id) (
        field "source_id" (str s.source_id) (
          field "run_id" (str s.run_id) (
            field "observed_at" (int s.observed_at) (
              field "complete" (bool s.complete)
                (field "scope" (string_array s.scope) (field "evidence" (obj s.evidence) end))))))))

module _ (digest : Json → String) where
  unfoldable pub observation_id_for :
      ArtifactKey
      → ContentId
      → RunId
      → OperationId
      → ℕ
      → Option String
      → Option String
      → ObservationId
  observation_id_for artifact_key content_id run_id operation_id observed_at source_path locator =
      stable_id digest "obs" (
        obj (
          field "kind" (str "content") (
            field "artifact_key" (str artifact_key) (
              field "content_id" (str content_id) (
                field "run_id" (str run_id) (
                  field "operation_id" (str operation_id) (
                    field "observed_at" (int observed_at) (
                      field "source_path" (or_null source_path)
                        (field "upstream_locator" (or_null locator) end)))))))))

  unfoldable pub absence_id_for :
      ArtifactKey → RunId → OperationId → ℕ → Option String → Option String → ObservationId
  absence_id_for artifact_key run_id operation_id observed_at source_path locator =
      stable_id digest "obs" (
        obj (
          field "kind" (str "absence") (
            field "artifact_key" (str artifact_key) (
              field "run_id" (str run_id) (
                field "operation_id" (str operation_id) (
                  field "observed_at" (int observed_at) (
                    field "source_path" (or_null source_path)
                      (field "upstream_locator" (or_null locator) end))))))))

  unfoldable pub run_id_for : ℕ → List String → RunId
  run_id_for started_at source_ids =
      stable_id digest "run" (
        obj
          (field "started_at" (int started_at) (field "source_ids" (string_array source_ids) end)))

  unfoldable pub operation_id_for : RunId → String → String → OperationId
  operation_id_for run_id kind subject = stable_id digest "op" (
      obj
        (field "run_id" (str run_id) (field "kind" (str kind) (field "subject" (str subject) end))))

-- `InventoryCoverage.to_dict`
unfoldable pub coverage_to_dict : InventoryCoverage → Json
coverage_to_dict c =
    obj (field "scope" (string_array c.scope) (field "complete" (bool c.complete) end))

abbrev pub reliability_name : Reliability → String
reliability_name weak = "weak"
reliability_name strong = "strong"

-- `ChangeToken.to_dict`
unfoldable pub token_to_dict : ChangeToken → Json
token_to_dict t = obj (
    field "kind" (str t.kind) (
      field "value" (str t.value) (field "reliability" (str (reliability_name t.reliability)) end)))

-- `IntegrityExpectation.to_dict`
unfoldable pub expectation_to_dict : IntegrityExpectation → Json
expectation_to_dict e = obj (
    field "algorithm" (str e.algorithm) (
      field "digest" (str e.digest)
        (field "required" (bool e.required) (field "metadata" (obj e.metadata) end))))

abbrev pub token_option : Option ChangeToken → Option Json
token_option none = none
token_option (some t) = some (token_to_dict t)

-- `InventoryItem.to_dict`
unfoldable pub item_to_dict : InventoryItem → Json
unfolding token_to_dict expectation_to_dict
item_to_dict i = obj (
    put_some "change_token" (token_option i.change_token) (
      put_some "source_path" (str_option i.source_path) (
        put_some "locator" (str_option i.locator) (
          field "item_id" (str i.item_id) (
            field "artifact_key" (str i.artifact_key) (
              field "expected_integrity"
                (arr (array (map expectation_to_dict i.expected_integrity)))
                (field "metadata" (obj i.metadata) end)))))))

-- `SourceInventory.to_dict`
unfoldable pub inventory_to_dict : SourceInventory → Json
unfolding coverage_to_dict item_to_dict
inventory_to_dict i = obj (
    put_some "upstream_identity" (str_option i.upstream_identity) (
      field "source_id" (str i.source_id) (
        field "observed_at" (int i.observed_at) (
          field "coverage" (coverage_to_dict i.coverage) (
            field "items" (arr (array (map item_to_dict i.items)))
              (field "metadata" (obj i.metadata) end))))))

abbrev pub absence_kind_name : AbsenceEvidenceKind → String
absence_kind_name complete_inventory = "complete-inventory"
absence_kind_name direct_negative = "direct-negative"

abbrev pub coverage_option : Option InventoryCoverage → Option Json
coverage_option none = none
coverage_option (some c) = some (coverage_to_dict c)

-- `AbsenceEvidence.to_dict`
unfoldable pub absence_evidence_to_dict : AbsenceEvidence → Json
unfolding coverage_to_dict
absence_evidence_to_dict e = obj (
    put_some "coverage" (coverage_option e.coverage) (
      put_some "locator" (str_option e.locator) (
        put_some "source_path" (str_option e.source_path) (
          field "kind" (str (absence_kind_name e.kind)) (
            field "source_id" (str e.source_id)
              (field "observed_at" (int e.observed_at) (field "metadata" (obj e.metadata) end)))))))
