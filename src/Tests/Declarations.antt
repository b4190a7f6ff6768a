-- ===== src/Tests/Declarations.antt =====
-- A declared source whose tags are out of order.
use efloud.Prelude.{
  String, string_eq, ◌==◌, List, [], ◌∷◌, none, ◌≡◌, refl, inl, inr, Bool-cases, if◌then◌else◌,
}
use efloud.Prelude.Sort.{sort}
use efloud.Prelude.Text.{str_leb}
use efloud.Errors.{ok}
use efloud.Sources.{Source, local, declared}
use efloud.Sources.Constructed.{IsConstructed, declared-IsConstructed}

-- A stand-in for the resolution of paths.
abbrev to_root : String → String
to_root path = if path == "" then "" else "/data"

abbrev with_tags : String → List String → Source
with_tags path tags = local (record {
  common = record { id = "here"; description = ""; role = none; tags = tags };
  path = path;
  artifact_key = none;
  media_type = none;
  expected_integrity = [];
})

to_root_twice : (path : String) → to_root (to_root path) ≡ to_root path
to_root_twice path = elim (Bool-cases (path == "")) [ inl e ↦ rw e refl | inr e ↦ rw e refl ]

once :
    declared (λ s. s) to_root (with_tags "data" ("b" ∷ "a" ∷ "b" ∷ []))
    ≡ ok (with_tags "/data" ("a" ∷ "b" ∷ []))
unfolding declared sort str_leb
once = refl

declared-IsConstructed_example :
    IsConstructed
      (λ s. s)
      to_root
      (with_tags "data" ("b" ∷ "a" ∷ "b" ∷ []))
      (with_tags "/data" ("a" ∷ "b" ∷ []))
    × (declared (λ s. s) to_root (with_tags "/data" ("a" ∷ "b" ∷ []))
        ≡ ok (with_tags "/data" ("a" ∷ "b" ∷ [])))
declared-IsConstructed_example =
    declared-IsConstructed (λ s. s) to_root to_root_twice (with_tags "data" ("b" ∷ "a" ∷ "b" ∷ []))
      (with_tags "/data" ("a" ∷ "b" ∷ [])) once
