-- ===== src/Validation/Batches.antt =====
-- The batches of `validate_content` in validation.py, and the results that the catalog keeps.
use efloud.Prelude.{ℕ, String, Bool, true, List, ◌++◌, Option, map, ◌≡◌, ◌↔◌}
use efloud.Models.{ContentId, ContentRef}
use efloud.Inventory.{IntegrityExpectation}
use efloud.Catalog.State.{MemoryCatalog}
use efloud.Validation.{
  ValidationTarget, Attempt, ContentValidator, ValidationRegistry, ValidationCheck, applicable,
  batch_ok,
}
use efloud.Validation.Builtin.{validate_content, expectation_validator}
use efloud.Validation.Reuse.{
  KeepsValidations, as_reused, AllPassed, validate_all-AreChecked, validate_all-again,
  batch_ok-AllPassed,
}

module _ {Stream : Type 0} (lower : String → String) (sha256 : Stream → Attempt String)
    (gunzip : Stream → Attempt (Attempt (Unit {0})))
    (json_type : Bool → Stream → Attempt (Attempt String))
    (open_content : ContentId → Attempt Stream) (registry : ValidationRegistry Stream)
    (content : ContentRef) (name : Option String) (expectations : List IntegrityExpectation) where
  -- The validators of a content: those registered that apply, and one for each expectation.
  abbrev pub validators_of : List (ContentValidator Stream)
  validators_of =
      applicable (target_of content name) registry
      ++ map (expectation_validator lower sha256 gunzip json_type) expectations
    where
      target_of : ContentRef → Option String → ValidationTarget
      target_of content name = record { content = content; name = name }

  abbrev pub validate : ℕ → MemoryCatalog → List ValidationCheck × MemoryCatalog
  validate checked_at c =
      validate_content lower sha256 gunzip json_type open_content registry content name expectations
        checked_at c

  -- To validate a content again, at any time, reuses every result and leaves the catalog as it is.
  pub validate_content-again :
      (checked_at again_at : ℕ) (c : MemoryCatalog)
      → validate again_at (validate checked_at c).1
        ≡ (map as_reused (validate checked_at c).0, (validate checked_at c).1)
  unfolding validate_content
  validate_content-again checked_at again_at c =
      validate_all-again open_content (record { content = content; name = name }) again_at
        validators_of (validate checked_at c).0 (validate checked_at c).1
        (validate_all-AreChecked open_content (record { content = content; name = name }) checked_at
          validators_of c).0

  -- To validate a content changes no result that the catalog holds.
  pub validate_content-keeps :
      (checked_at : ℕ) (c : MemoryCatalog) → KeepsValidations c (validate checked_at c).1
  unfolding validate_content
  validate_content-keeps checked_at c =
      (validate_all-AreChecked open_content (record { content = content; name = name }) checked_at
        validators_of c).1

  -- A batch is ok exactly if the catalog then holds a passed result of every required validator of
  -- the content, whether it was there before or is new.
  pub validate_content-ok_iff :
      (checked_at : ℕ) (c : MemoryCatalog)
      → (batch_ok (validate checked_at c).0 ≡ true)
        ↔ AllPassed open_content
            (record { content = content; name = name })
            checked_at
            validators_of
            (validate checked_at c).1
  unfolding validate_content
  validate_content-ok_iff checked_at c =
      batch_ok-AllPassed open_content (record { content = content; name = name }) checked_at
        validators_of (validate checked_at c).0 (validate checked_at c).1
        (validate_all-AreChecked open_content (record { content = content; name = name }) checked_at
          validators_of c).0
