-- ===== src/Inventory/Integrity.antt =====
-- The integrity checks of inventory.py; `lower` stands for `str.lower`.
use efloud.Prelude.{String, ◌<>◌, Bool, false, List, Option, none, some, not, ◌&&◌, map}
use efloud.Prelude.{if◌then◌else◌, ◌==◌, string_eq, any}
use efloud.Errors.{Result, ok, raise, Fault}
use efloud.Models.{ContentId, ContentRef}
use efloud.Inventory.{IntegrityExpectation}

pub record IntegrityCheck : Type 0 where
  pub expectation : IntegrityExpectation
  pub actual_content_id : ContentId
  pub ok : Bool

module _ (lower : String → String) where
  -- `expected_content_id`
  unfoldable pub expected_content_id : IntegrityExpectation → Option ContentId
  expected_content_id e =
      if lower e.algorithm == "sha256" then some ("sha256:" <> lower e.digest) else none

  abbrev pub matches_id : Option ContentId → String → Bool
  matches_id none actual = false
  matches_id (some expected) actual = expected == actual

  -- `matches`
  unfoldable pub matches : IntegrityExpectation → ContentId → Bool
  unfolding expected_content_id
  matches e actual_content_id = matches_id (expected_content_id e) (lower actual_content_id)

  abbrev pub check_one : ContentRef → IntegrityExpectation → IntegrityCheck
  check_one content e = record {
    expectation = e;
    actual_content_id = content.content_id;
    ok = matches e content.content_id;
  }

  unfoldable pub check_integrity : ContentRef → List IntegrityExpectation → List IntegrityCheck
  unfolding matches
  check_integrity content expectations = map (check_one content) expectations

  abbrev pub has_failed : IntegrityCheck → Bool
  has_failed check = check.expectation.required && not check.ok

  unfoldable pub require_integrity :
      ContentRef → List IntegrityExpectation → Result (List IntegrityCheck)
  unfolding check_integrity
  require_integrity content expectations =
      let checks = check_integrity content expectations in
      if any has_failed checks then raise Fault.integrity_failed else ok checks
