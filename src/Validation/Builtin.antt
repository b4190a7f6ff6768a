-- ===== src/Validation/Builtin.antt =====
-- validation.py: the validators that come with it, and `validate_content`. `lower` stands for
-- `str.lower`, `sha256` for the digest of a stream, in hexadecimal; `gunzip` reads an archive to its
-- end and `json_type` decodes a stream, decompressed first if the flag is set. Each may raise; of the
-- last two, what the validator catches is a value that was returned, and says what was caught.
use efloud.Prelude.{ℕ, String, ◌<>◌, Bool, true, List, [], ◌∷◌, ◌++◌, Option, none, some, map, ◌||◌}
use efloud.Prelude.{if◌then◌else◌, ◌==◌, string_eq}
use efloud.Errors.{Result}
use efloud.Json.{str, end, field, put}
use efloud.Models.{ContentId, ContentRef, passed, failed}
use efloud.Inventory.{IntegrityExpectation}
use efloud.Inventory.Integrity.{expected_content_id}
use efloud.Catalog.State.{MemoryCatalog}
use efloud.Datasets.Selectors.{starts_with}
use efloud.Validation.{
  ValidationTarget, ValidationOutcome, Attempt, raised, returned, ContentValidator, ValidationCheck,
  ValidationRegistry, applicable, register_validators, validate_all,
}

-- `text.endswith(suffix)`
unfoldable pub ends_with : String → String → Bool
ends_with suffix String.[] = suffix == ""
ends_with suffix (String.◌∷◌ c s) =
    let rest = ends_with suffix s in suffix == String.◌∷◌ c s || rest

-- `part in text`
unfoldable pub has_part : String → String → Bool
unfolding starts_with
has_part part String.[] = part == ""
has_part part (String.◌∷◌ c s) =
    let rest = has_part part s in starts_with part (String.◌∷◌ c s) || rest

abbrev pub text_or_empty : Option String → String
text_or_empty none = ""
text_or_empty (some s) = s

module _ {Stream : Type 0} (lower : String → String) (sha256 : Stream → Attempt String)
    (gunzip : Stream → Attempt (Attempt (Unit {0})))
    (json_type : Bool → Stream → Attempt (Attempt String)) where
  -- What follows the reading of a stream, unless that raises.
  abbrev pub and_then : {A B : Type 0} → Attempt A → (A → B) → Attempt B
  and_then (raised text) f = raised text
  and_then (returned a) f = returned (f a)

  -- `StorageIntegrityValidator.validate`
  abbrev pub check_storage : ValidationTarget → Stream → Attempt ValidationOutcome
  check_storage target stream = and_then (sha256 stream) (λ digest.
      let actual = "sha256:" <> digest in
      record {
        status = if actual == target.content.content_id then passed else failed;
        details =
            field "expected_content_id" (str target.content.content_id)
              (field "actual_content_id" (str actual) end);
      })

  abbrev pub storage_integrity_validator : ContentValidator Stream
  storage_integrity_validator = record {
    descriptor = record {
      validator_id = "efloud:storage-integrity";
      version = "1";
      required = true;
    };
    applies_to = λ target. true;
    validate = check_storage;
  }

  -- `GzipValidator.applies_to`
  unfoldable pub gzip_applies : ValidationTarget → Bool
  unfolding ends_with
  gzip_applies target =
      let media_type = lower (text_or_empty target.content.media_type) in
      media_type == "application/gzip"
      || media_type == "application/x-gzip"
      || ends_with ".gz" (lower (text_or_empty target.name))

  abbrev pub failed_with : String → ValidationOutcome
  failed_with text = record { status = failed; details = field "error" (str text) end }

  abbrev pub gzip_outcome : Attempt (Unit {0}) → ValidationOutcome
  gzip_outcome (returned read) = record { status = passed; details = end }
  gzip_outcome (raised text) = failed_with text

  abbrev pub gzip_validator : ContentValidator Stream
  gzip_validator = record {
    descriptor = record { validator_id = "efloud:gzip"; version = "1"; required = true };
    applies_to = gzip_applies;
    validate = λ target stream. and_then (gunzip stream) gzip_outcome;
  }

  -- `JsonValidator.applies_to`
  unfoldable pub json_applies : ValidationTarget → Bool
  unfolding ends_with has_part
  json_applies target =
      let name = lower (text_or_empty target.name) in
      has_part "json" (lower (text_or_empty target.content.media_type))
      || ends_with ".json" name
      || ends_with ".json.gz" name

  abbrev pub json_outcome : Attempt String → ValidationOutcome
  json_outcome (returned name) = record {
    status = passed;
    details = field "json_type" (str name) end;
  }
  json_outcome (raised text) = failed_with text

  -- The stream is decompressed first if the name ends in `.gz`.
  abbrev pub json_validator : ContentValidator Stream
  json_validator = record {
    descriptor = record { validator_id = "efloud:json"; version = "1"; required = true };
    applies_to = json_applies;
    validate = λ target stream.
        and_then (json_type (ends_with ".gz" (lower (text_or_empty target.name))) stream)
          json_outcome;
  }

  -- `IntegrityExpectationValidator.validate`
  unfoldable pub check_expectation : IntegrityExpectation → ContentRef → ValidationOutcome
  unfolding expected_content_id
  check_expectation e content =
      let details =
        field "algorithm" (str e.algorithm) (
          field "digest" (str e.digest) (field "actual_content_id" (str content.content_id) end)) in
      elim (expected_content_id lower e) [
        | none ↦ record {
          status = failed;
          details = put "error" (str "unsupported integrity expectation algorithm") details;
        }
        | some expected ↦ record {
          status = if expected == content.content_id then passed else failed;
          details = put "expected_content_id" (str expected) details;
        }
      ]

  -- `IntegrityExpectationValidator`
  unfoldable pub expectation_validator : IntegrityExpectation → ContentValidator Stream
  unfolding check_expectation
  expectation_validator e = record {
    descriptor = record {
      validator_id = "efloud:source-integrity:" <> lower e.algorithm <> ":" <> lower e.digest;
      version = "1";
      required = e.required;
    };
    applies_to = λ target. true;
    validate = λ target stream. returned (check_expectation e target.content);
  }

  -- `builtin_validation_registry`
  unfoldable pub builtin_validation_registry : Result (ValidationRegistry Stream)
  unfolding register_validators gzip_applies json_applies ends_with
  builtin_validation_registry =
      register_validators (storage_integrity_validator ∷ gzip_validator ∷ json_validator ∷ []) []

  -- `validate_content`
  unfoldable pub validate_content :
      (ContentId → Attempt Stream)
      → ValidationRegistry Stream
      → ContentRef
      → Option String
      → List IntegrityExpectation
      → ℕ
      → MemoryCatalog
      → List ValidationCheck × MemoryCatalog
  unfolding applicable expectation_validator validate_all
  validate_content open_content registry content name expectations checked_at c =
      let target : ValidationTarget = record { content = content; name = name } in
      validate_all open_content target
        (applicable target registry ++ map expectation_validator expectations) checked_at c
