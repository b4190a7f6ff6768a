-- ===== src/Tests/Identities.antt =====
-- The derivation of one output from two inputs, and a content with a required digest.
use mathlib.Core.List.{Permᴰ}
use efloud.Prelude.{String, ◌<>◌, true, [], ◌∷◌, ◌≡◌, refl, inl, string_eq}
use efloud.Errors.{ok}
use efloud.Json.{end}
use efloud.Models.{ArtifactObservation}
use efloud.Inventory.{IntegrityExpectation}
use efloud.Inventory.Integrity.{
  IntegrityCheck, expected_content_id, matches, check_integrity, require_integrity,
}
use efloud.Inventory.Required.{require_integrity-digest}
use efloud.Derivation.{DerivedTaskSpec, content, derivation_key_for}
use efloud.Derivation.Order.{derivation_key_for-Perm}
use efloud.Tests.Sample.{render, page, seen}

abbrev spec : DerivedTaskSpec
spec = record {
  task_id = "efloud:derived:t";
  task_version = "1";
  deterministic = true;
  dependency_semantics = content;
  parameters = end;
}

abbrev other : ArtifactObservation
other = record seen { observation_id = "obs:3"; content_id = "sha256:bb" }

derivation_key_for-Perm_example :
    derivation_key_for render spec ("x" ∷ "y" ∷ []) (seen ∷ other ∷ [])
    ≡ derivation_key_for render spec ("y" ∷ "x" ∷ []) (other ∷ seen ∷ [])
derivation_key_for-Perm_example =
    derivation_key_for-Perm render spec (Permᴰ.swap refl refl) (Permᴰ.swap refl refl)

-- A lower-casing that is enough for the texts used here, which are lower case.
abbrev same : String → String
same s = s

abbrev expectation : IntegrityExpectation
expectation = record { algorithm = "sha256"; digest = "aa"; required = true; metadata = end }

abbrev check : IntegrityCheck
check = record { expectation = expectation; actual_content_id = "sha256:aa"; ok = true }

checked : require_integrity same page (expectation ∷ []) ≡ ok (check ∷ [])
unfolding require_integrity check_integrity matches expected_content_id
checked = refl

require_integrity-digest_example :
    (same expectation.algorithm ≡ "sha256")
    × (("sha256:" <> same expectation.digest) ≡ same page.content_id)
require_integrity-digest_example =
    require_integrity-digest same page (expectation ∷ []) (check ∷ []) checked expectation
      (inl refl) refl
