-- ===== src/Tests/Validations.antt =====
-- A page validated by its storage, by an expectation that it meets and by one that it does not.
use efloud.Prelude.{
  ℕ, String, string_eq, Bool, true, false, List, [], ◌∷◌, some, ◌≡◌, ◌↔◌, refl, map,
}
use efloud.Prelude.Dict
use efloud.Prelude.Dict.{lookup}
use efloud.Json.{end}
use efloud.Models.{ContentId}
use efloud.Inventory.{IntegrityExpectation}
use efloud.Catalog.State.{MemoryCatalog, empty}
use efloud.Validation.{Attempt, returned, ValidationCheck, ValidationRegistry, batch_ok, has_passed}
use efloud.Validation.Builtin.{validate_content, storage_integrity_validator}
use efloud.Validation.Reuse.{KeepsValidations, as_reused, AllPassed}
use efloud.Validation.Batches.{
  validators_of, validate_content-again, validate_content-keeps, validate_content-ok_iff,
}
use efloud.Tests.Sample.{page}

abbrev same : String → String
same s = s

abbrev digest : String → Attempt String
digest stream = returned stream

abbrev read : String → Attempt (Attempt (Unit {0}))
read stream = returned (returned tt)

abbrev decode : Bool → String → Attempt (Attempt String)
decode zipped stream = returned (returned "dict")

-- The stream of a content is its digest.
abbrev open_page : ContentId → Attempt String
open_page id = returned "aa"

abbrev registry : ValidationRegistry String
registry = ("efloud:storage-integrity", storage_integrity_validator same digest read decode) ∷ []

abbrev expects : String → Bool → IntegrityExpectation
expects digest required = record {
  algorithm = "sha256";
  digest = digest;
  required = required;
  metadata = end;
}

abbrev expectations : List IntegrityExpectation
expectations = expects "aa" true ∷ expects "bb" false ∷ []

abbrev run : ℕ → MemoryCatalog → List ValidationCheck × MemoryCatalog
run checked_at c =
    validate_content same digest read decode open_page registry page (some "page.json") expectations
      checked_at c

abbrev outcome : ValidationCheck → Bool × Bool
outcome check = (has_passed check.result, check.reused)

first_run : map outcome (run 5 empty).0 ≡ (true, false) ∷ (true, false) ∷ (false, false) ∷ []
unfolding validate_content lookup Dict.insert
first_run = refl

first_ok : batch_ok (run 5 empty).0 ≡ true
unfolding validate_content lookup Dict.insert batch_ok
first_ok = refl

validate_content-again_example :
    run 8 (run 5 empty).1 ≡ (map as_reused (run 5 empty).0, (run 5 empty).1)
validate_content-again_example =
    validate_content-again same digest read decode open_page registry page (some "page.json")
      expectations 5 8 empty

validate_content-keeps_example : KeepsValidations (run 5 empty).1 (run 8 (run 5 empty).1).1
validate_content-keeps_example =
    validate_content-keeps same digest read decode open_page registry page (some "page.json")
      expectations 8 (run 5 empty).1

validate_content-ok_iff_example :
    (batch_ok (run 5 empty).0 ≡ true)
    ↔ AllPassed open_page
        (record { content = page; name = some "page.json" })
        5
        (validators_of same digest read decode open_page registry page
          (some "page.json")
          expectations)
        (run 5 empty).1
validate_content-ok_iff_example =
    validate_content-ok_iff same digest read decode open_page registry page (some "page.json")
      expectations 5 empty
