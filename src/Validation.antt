-- ===== src/Validation.antt =====
-- validation.py: validators, their registry, and the service that keeps their results.
-- `open_content` stands for the repository's method of that name.
pub mod Builtin
pub mod Reuse
pub mod Batches
use efloud.Prelude.{
  ℕ, String, ◌<>◌, Bool, true, false, List, [], ◌∷◌, ◌++◌, Option, none, some, not, map, ◌&&◌, ◌||◌,
}
use efloud.Prelude.{if◌then◌else◌, ◌==◌, string_eq, option_eq, pair_eq, all, filter}
use efloud.Prelude.Sort.{sort}
use efloud.Prelude.Text.{str_leb}
use efloud.Prelude.Dict
use efloud.Prelude.Dict.{Dict, lookup, values}
use efloud.Errors.{Result, ok, raise, Fault, ◌>>=◌}
use efloud.Json.{
  Json, JsonObject, bool, int, str, arr, obj, end, field, array, put, put_some, str_option,
}
use efloud.Models.{
  ContentId, ContentRef, ValidationResult, ValidationStatus, passed, failed, error, partition_colon,
}
use efloud.Payloads.{validation_status_name}
use efloud.Inventory.{IntegrityExpectation}
use efloud.Inventory.Integrity.{expected_content_id}
use efloud.Catalog.State.{MemoryCatalog, Outcome}
use efloud.Catalog.Snapshots.{record_validation, validation}

pub record ValidatorDescriptor : Type 0 where
  pub validator_id : String
  pub version : String
  pub required : Bool

-- `ValidatorDescriptor.__post_init__`
unfoldable pub validator_descriptor : ValidatorDescriptor → Result ValidatorDescriptor
unfolding partition_colon
validator_descriptor d = elim (partition_colon d.validator_id) [
  | none ↦ raise Fault.validator_not_namespaced
  | some (namespace, name) ↦
      if namespace == "" || name == ""
      then raise Fault.validator_not_namespaced
      else if d.version == ""
      then raise Fault.validator_unversioned
      else ok d
]

pub record ValidationTarget : Type 0 where
  pub content : ContentRef
  pub name : Option String

pub record ValidationOutcome : Type 0 where
  pub status : ValidationStatus
  pub details : JsonObject

-- A call that returns, or raises an exception with its text.
pub data Attempt {κ} (B : Type κ) : Type κ where
  raised : String → Attempt B
  returned : B → Attempt B

pub record ContentValidator (Stream : Type 0) : Type 0 where
  pub descriptor : ValidatorDescriptor
  pub applies_to : ValidationTarget → Bool
  pub validate : ValidationTarget → Stream → Attempt ValidationOutcome

pub record ValidationCheck : Type 0 where
  pub result : ValidationResult
  pub required : Bool
  pub reused : Bool

-- `ValidationResult.to_dict`, as an object.
abbrev pub result_object : ValidationResult → JsonObject
result_object v = field "content_id" (str v.content_id) (
    field "validator" (str v.validator) (
      field "validator_version" (str v.validator_version) (
        field "checked_at" (int v.checked_at) (
          field "status" (str (validation_status_name v.status))
            (field "details" (obj v.details) end)))))

-- `ValidationCheck.to_dict`
unfoldable pub check_to_dict : ValidationCheck → Json
check_to_dict c =
    obj (put "reused" (bool c.reused) (put "required" (bool c.required) (result_object c.result)))

abbrev pub has_passed : ValidationResult → Bool
has_passed r = elim r.status [ passed ↦ true | failed ↦ false | error ↦ false ]

-- `ValidationBatch.ok`
unfoldable pub batch_ok : List ValidationCheck → Bool
batch_ok checks = all (λ c. not c.required || has_passed c.result) checks

-- `ValidationBatch.to_dict`
unfoldable pub batch_to_dict : List ValidationCheck → Json
unfolding check_to_dict batch_ok
batch_to_dict checks = obj (
    field "ok" (bool (batch_ok checks))
      (field "checks" (arr (array (map check_to_dict checks))) end))

abbrev pub ValidationRegistry : Type 0 → Type 0
ValidationRegistry Stream = Dict String (ContentValidator Stream)

module _ {Stream : Type 0} where
  abbrev pub validator_key : ContentValidator Stream → String
  validator_key v = v.descriptor.validator_id

  -- `ValidationRegistry.register`
  unfoldable pub register_validator :
      ContentValidator Stream → ValidationRegistry Stream → Result (ValidationRegistry Stream)
  unfolding Dict.insert
  register_validator v registry =
      if Dict.has (validator_key v) registry
      then raise Fault.validator_exists
      else ok (Dict.insert (validator_key v) v registry)

  -- `ValidationRegistry(validators)`
  unfoldable pub register_validators :
      List (ContentValidator Stream)
      → ValidationRegistry Stream
      → Result (ValidationRegistry Stream)
  unfolding register_validator
  register_validators [] registry = ok registry
  register_validators (v ∷ vs) registry = do
    more ← register_validator v registry
    register_validators vs more

  -- `applicable`
  unfoldable pub applicable :
      ValidationTarget → ValidationRegistry Stream → List (ContentValidator Stream)
  applicable target registry = filter (λ v. v.applies_to target) (values registry)

  abbrev pub validator_leb : ContentValidator Stream → ContentValidator Stream → Bool
  validator_leb a b = str_leb (validator_key a) (validator_key b)

  -- `descriptors`
  unfoldable pub validator_descriptors : ValidationRegistry Stream → List ValidatorDescriptor
  validator_descriptors registry = map (λ v. v.descriptor) (sort validator_leb (values registry))

  module _ (open_content : ContentId → Attempt Stream) where
    -- The `with` block, and the outcome that stands for an exception in it.
    abbrev pub outcome_of : Attempt ValidationOutcome → ValidationOutcome
    outcome_of (returned o) = o
    outcome_of (raised text) = record { status = error; details = field "error" (str text) end }

    unfoldable pub run_validator : ValidationTarget → ContentValidator Stream → ValidationOutcome
    run_validator target v = elim (open_content target.content.content_id) [
      | raised text ↦ outcome_of (raised text)
      | returned stream ↦ outcome_of (v.validate target stream)
    ]

    abbrev pub result_of : ValidationTarget → ContentValidator Stream → ℕ → ValidationResult
    result_of target v checked_at =
        let outcome = run_validator target v in
        record {
          content_id = target.content.content_id;
          validator = v.descriptor.validator_id;
          validator_version = v.descriptor.version;
          checked_at = checked_at;
          status = outcome.status;
          details = outcome.details;
        }

    abbrev pub recorded_result :
        ValidationTarget → ContentValidator Stream → MemoryCatalog → Option ValidationResult
    recorded_result target v c =
        validation target.content.content_id v.descriptor.validator_id v.descriptor.version c

    -- `_validate_one`, at the time `checked_at`; to record a validation never raises.
    unfoldable pub validate_one :
        ValidationTarget
        → ContentValidator Stream
        → ℕ
        → MemoryCatalog
        → ValidationCheck × MemoryCatalog
    unfolding run_validator validation record_validation
    validate_one target v checked_at c = elim (recorded_result target v c) [
      | some existing ↦
          (record { result = existing; required = v.descriptor.required; reused = true }, c)
      | none ↦
          let result = result_of target v checked_at in
          (
            record { result = result; required = v.descriptor.required; reused = false },
            (record_validation result c).1,
          )
    ]

    unfoldable pub validate_all :
        ValidationTarget
        → List (ContentValidator Stream)
        → ℕ
        → MemoryCatalog
        → List ValidationCheck × MemoryCatalog
    unfolding validate_one
    validate_all target [] checked_at c = ([], c)
    validate_all target (v ∷ vs) checked_at c =
        let (check, c') = validate_one target v checked_at c in
        let (checks, c'') = validate_all target vs checked_at c' in (check ∷ checks, c'')
