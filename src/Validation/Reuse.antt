-- ===== src/Validation/Reuse.antt =====
-- What `validate_content` records, and that it is done once.
use mathlib.Core.Path.{subst}
use mathlib.Core.Option.{some-injective, none-ne-some}
use efloud.Prelude.{
  ℕ, String, true, false, List, [], ◌∷◌, none, some, map, ◌≡◌, ◌↔◌, refl, sym, ap, ◌∙◌, arith, inl,
  inr,
}
use efloud.Prelude.{◌==◌, string_eq, pair_eq, Member, Bool-cases, Option-cases}
use efloud.Prelude.Dict.{lookup, lookup-insert, lookup-insert_self}
use efloud.Models.{ContentId, ValidationResult}
use efloud.Catalog.State.{MemoryCatalog}
use efloud.Catalog.Snapshots.{record_validation, validation}
use efloud.Validation.{
  ValidationTarget, Attempt, ContentValidator, ValidationCheck, recorded_result, result_of,
  validate_one, validate_all, batch_ok, has_passed,
}

-- Every recorded result stays as it is.
abbrev pub KeepsValidations : MemoryCatalog → MemoryCatalog → Type 0
KeepsValidations c d =
    (id : ContentId) (validator version : String) (r : ValidationResult)
    → validation id validator version c ≡ some r
    → validation id validator version d ≡ some r

module _ {Stream : Type 0} (open_content : ContentId → Attempt Stream) (target : ValidationTarget)
    (checked_at : ℕ) where
  -- One check: its result is recorded, results are kept, and it was reused if it was there.
  record IsChecked (v : ContentValidator Stream) (c : MemoryCatalog) (check : ValidationCheck)
      (d : MemoryCatalog) : Type 0 where
    recorded : recorded_result open_content target v d ≡ some check.result
    required : check.required ≡ v.descriptor.required
    kept : KeepsValidations c d

  validate_one-reused :
      (v : ContentValidator Stream) (c : MemoryCatalog) (r : ValidationResult)
      → recorded_result open_content target v c ≡ some r
      → validate_one open_content target v checked_at c
        ≡ (record { result = r; required = v.descriptor.required; reused = true }, c)
  unfolding validate_one
  validate_one-reused v c r e = rw (e, validate_one) refl

  validate_one-fresh :
      (v : ContentValidator Stream) (c : MemoryCatalog)
      → recorded_result open_content target v c ≡ none
      → validate_one open_content target v checked_at c ≡ (
        record {
          result = result_of open_content target v checked_at;
          required = v.descriptor.required;
          reused = false;
        },
        (record_validation (result_of open_content target v checked_at) c).1,
      )
  unfolding validate_one
  validate_one-fresh v c e = rw (e, validate_one) refl

  record_validation-keeps :
      (c : MemoryCatalog) (r : ValidationResult)
      → validation r.content_id r.validator r.validator_version c ≡ none
      → KeepsValidations c (record_validation r c).1
  unfolding record_validation validation
  record_validation-keeps c r none_there id validator version q h =
      let key : String × (String × String) = (r.content_id, (r.validator, r.validator_version)) in
      let k : String × (String × String) = (id, (validator, version)) in
      lookup-insert k key r c.validations ∙ elim (Bool-cases (k == key)) [
        | inr e ↦ rw e h
        | inl e ↦ absurd (
            none-ne-some q (
              sym none_there
              ∙ ap (λ z. lookup z c.validations) (sym ((pair_eq.beq_iff k key).0 e))
              ∙ h))
      ]

  record_validation-there :
      (c : MemoryCatalog) (r : ValidationResult)
      → validation r.content_id r.validator r.validator_version (record_validation r c).1 ≡ some r
  unfolding record_validation validation
  record_validation-there c r =
      lookup-insert_self (r.content_id, (r.validator, r.validator_version)) r c.validations

  validate_one-IsChecked :
      (v : ContentValidator Stream) (c : MemoryCatalog)
      → IsChecked v c
          (validate_one open_content target v checked_at c).0
          (validate_one open_content target v checked_at c).1
  validate_one-IsChecked v c = elim (Option-cases (recorded_result open_content target v c)) [
    | inr (r, e) ↦
        subst (λ z. IsChecked v c z.0 z.1) (sym (validate_one-reused v c r e))
          (record { recorded = e; required = refl; kept = λ id validator version q h. h })
    | inl e ↦
        subst (λ z. IsChecked v c z.0 z.1) (sym (validate_one-fresh v c e))
          (record {
            recorded = record_validation-there c (result_of open_content target v checked_at);
            required = refl;
            kept = record_validation-keeps c (result_of open_content target v checked_at) e;
          })
  ]

  -- Each check is of its validator, and its result is what the catalog holds.
  abbrev pub AreChecked :
      List (ContentValidator Stream) → List ValidationCheck → MemoryCatalog → Type 0
  AreChecked [] [] d = Unit
  AreChecked [] (k ∷ ks) d = ⊥
  AreChecked (v ∷ vs) [] d = ⊥
  AreChecked (v ∷ vs) (k ∷ ks) d =
      ((recorded_result open_content target v d ≡ some k.result)
        × (k.required ≡ v.descriptor.required))
      × AreChecked vs ks d

  pub validate_all-AreChecked :
      (vs : List (ContentValidator Stream)) (c : MemoryCatalog)
      → AreChecked vs
          (validate_all open_content target vs checked_at c).0
          (validate_all open_content target vs checked_at c).1
        × KeepsValidations c (validate_all open_content target vs checked_at c).1
  unfolding validate_all
  validate_all-AreChecked [] c = (tt, λ id validator version q h. h)
  validate_all-AreChecked (v ∷ vs) c =
      let first = validate_one-IsChecked v c in
      let rest = validate_all-AreChecked vs (validate_one open_content target v checked_at c).1 in
      (
        (
          (
            rest.1 target.content.content_id v.descriptor.validator_id v.descriptor.version _
                first.recorded,
            first.required,
          ),
          rest.0,
        ),
        λ id validator version q h.
            rest.1 id validator version q (first.kept id validator version q h),
      )

abbrev pub as_reused : ValidationCheck → ValidationCheck
as_reused k = record k { reused = true }

module _ {Stream : Type 0} (open_content : ContentId → Attempt Stream) (target : ValidationTarget)
    (again_at : ℕ) where
  pub validate_all-again :
      (vs : List (ContentValidator Stream)) (ks : List ValidationCheck) (d : MemoryCatalog)
      → AreChecked open_content target again_at vs ks d
      → validate_all open_content target vs again_at d ≡ (map as_reused ks, d)
  unfolding validate_all
  validate_all-again [] [] d h = refl
  validate_all-again [] (k ∷ ks) d h = elim h [ ]
  validate_all-again (v ∷ vs) [] d h = elim h [ ]
  validate_all-again (v ∷ vs) (k ∷ ks) d h =
      rw
        (
          validate_one-reused open_content target again_at v d k.result h.0.0,
          validate_all-again vs ks d h.1,
          sym h.0.1,
        )
        refl

  -- A batch is passed exactly if the catalog holds a passed result of every required validator.
  abbrev pub AllPassed : List (ContentValidator Stream) → MemoryCatalog → Type 0
  AllPassed vs d =
      (v : ContentValidator Stream)
      → Member v vs
      → v.descriptor.required ≡ true
      → (r : ValidationResult) × (recorded_result open_content target v d ≡ some r)
        × (has_passed r ≡ true)

  pub batch_ok-AllPassed :
      (vs : List (ContentValidator Stream)) (ks : List ValidationCheck) (d : MemoryCatalog)
      → AreChecked open_content target again_at vs ks d
      → (batch_ok ks ≡ true) ↔ AllPassed vs d
  unfolding batch_ok
  batch_ok-AllPassed [] [] d h = (λ e v m. absurd (m tt), λ p. refl)
  batch_ok-AllPassed [] (k ∷ ks) d h = elim h [ ]
  batch_ok-AllPassed (v ∷ vs) [] d h = elim h [ ]
  batch_ok-AllPassed (v ∷ vs) (k ∷ ks) d h =
      let rest = batch_ok-AllPassed vs ks d h.1 in
      (
        λ e w m required. elim m [
          | inl q ↦
              subst
                (λ z.
                  (r : ValidationResult) × (recorded_result open_content target z d ≡ some r)
                  × (has_passed r ≡ true))
                (sym q)
                (
                  k.result,
                  h.0.0,
                  ground
                      (arith, h.0.1, ap (λ (z : ContentValidator Stream). z.descriptor.required) q),
                )
          | inr n ↦ rest.0 (ground arith) w n required
        ],
        λ p. elim (Bool-cases k.required) [
          | inr e ↦ ground (arith, rest.1 (λ w m. p w (inr m)))
          | inl e ↦
              let (r, f, g) = p v (inl refl) (sym h.0.1 ∙ e) in
              let same = some-injective _ _ (sym h.0.0 ∙ f) in
              ground (arith, rest.1 (λ w m. p w (inr m)), ap has_passed same)
        ],
      )
