-- ===== src/Inventory/Required.antt =====
-- What a content that passes `require_integrity` is known to be.
use efloud.Prelude.{String, ◌<>◌, true, false, List, map, ◌≡◌, arith, inl, inr}
use efloud.Prelude.{◌==◌, string_eq, any, any-false_iff, Member, Member-map_of, Bool-cases}
use efloud.Errors.{ok}
use efloud.Models.{ContentId, ContentRef}
use efloud.Inventory.{IntegrityExpectation}
use efloud.Inventory.Integrity.{
  IntegrityCheck, expected_content_id, matches, check_one, check_integrity, has_failed,
  require_integrity,
}

module _ (lower : String → String) where
  matches-digest :
      (e : IntegrityExpectation) (actual : ContentId)
      → matches lower e actual ≡ true
      → (lower e.algorithm ≡ "sha256") × (("sha256:" <> lower e.digest) ≡ lower actual)
  unfolding matches expected_content_id
  matches-digest e actual h = elim (Bool-cases (lower e.algorithm == "sha256")) [
    | inr other ↦ absurd (ground arith)
    | inl same ↦ (
      (string_eq.beq_iff (lower e.algorithm) "sha256").0 same,
      (string_eq.beq_iff ("sha256:" <> lower e.digest) (lower actual)).0
          (rw (same, matches, expected_content_id) at h),
    )
  ]

  none_failed :
      (content : ContentRef) (es : List IntegrityExpectation) (checks : List IntegrityCheck)
      → require_integrity lower content es ≡ ok checks
      → any (has_failed lower) (map (check_one lower content) es) ≡ false
  unfolding require_integrity check_integrity
  none_failed content es checks h =
      elim (Bool-cases (any (has_failed lower) (map (check_one lower content) es))) [
        | inr fine ↦ fine
        | inl bad ↦ absurd (ground arith)
      ]

  -- If the required checks pass, every required expectation is a SHA-256, in whatever case it is
  -- written, and its digest is that of the content.
  pub require_integrity-digest :
      (content : ContentRef) (es : List IntegrityExpectation) (checks : List IntegrityCheck)
      → require_integrity lower content es ≡ ok checks
      → (e : IntegrityExpectation) → Member e es
      → e.required ≡ true
      → (lower e.algorithm ≡ "sha256") × (("sha256:" <> lower e.digest) ≡ lower content.content_id)
  require_integrity-digest content es checks h e m required =
      let passed =
        (any-false_iff (has_failed lower) (map (check_one lower content) es)).0
          (none_failed content es checks h) (check_one lower content e)
          (Member-map_of (check_one lower content) e es m) in
      matches-digest e content.content_id (ground arith)
