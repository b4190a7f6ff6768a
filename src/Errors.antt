-- ===== src/Errors.antt =====
-- What the modelled code raises: one fault for each `raise`, with the class of its exception, and
-- the results of functions and of methods that may raise. The wording of a message is not kept.
use mathlib.Core.Path.{subst}
use efloud.Prelude.{List, [], ◌∷◌, Member, ◌≡◌, refl, sym, ap, ◌∙◌, ◌⊎◌, inl, inr}

-- The Python classes of the exceptions.
pub data ErrorClass : Type 0 where
  value_error key_error type_error cancelled_error runtime_error file_not_found_error : ErrorClass

pub data Fault : Type 0 where
  -- metadata_envelopes.py
  malformed_history malformed_revision revision_identity_mismatch unknown_current_revision : Fault
  malformed_specifications malformed_specification specification_identity_mismatch : Fault
  -- repository_models.py
  producer_not_namespaced producer_unversioned producer_fields_missing : Fault
  -- catalog/memory.py
  run_exists unknown_run run_not_running invalid_run_status operations_still_running : Fault
  run_terminal producer_missing operation_exists unknown_operation operation_not_running : Fault
  invalid_operation_status content_conflict content_mismatch observation_exists : Fault
  provenance_mismatch snapshot_exists negative_limit dataset_conflict : Fault
  -- inventory.py and reconciliation.py
  duplicate_items duplicate_artifacts outside_coverage : Fault
  absence_incomplete absence_uncovered absence_unlocated integrity_failed : Fault
  duplicate_baseline identity_changed : Fault
  -- planning.py and executor.py
  invalid_concurrency depends_on_itself unknown_planned_operation : Fault
  unknown_dependency dependency_cycle source_not_configured cancelled : Fault
  -- sources.py, collections.py, adapters.py and planner.py
  text_missing tag_empty port_out_of_range invalid_collection_concurrency : Fault
  duplicate_collection_items adapter_exists unknown_requested_sources : Fault
  invalid_task_outputs invalid_task_identity : Fault
  -- dataset_selectors.py, dataset_constraints.py and datasets.py
  unknown_observation artifact_absent unknown_snapshot no_complete_snapshot : Fault
  snapshot_incomplete invalid_binding member_ambiguous membership_unproved : Fault
  ambiguous_observations unknown_source_definition interval_reversed : Fault
  artifact_resolved_twice constraints_failed not_a_member : Fault
  -- validation.py
  validator_not_namespaced validator_unversioned validator_exists : Fault
  -- repository.py
  writer_closed unknown_source unknown_content blob_unavailable unknown_dataset : Fault
  absence_path_conflict absence_locator_conflict : Fault

-- The class that the code raises, which is `ValueError` where no other is named.
unfoldable pub error_class : Fault → ErrorClass
error_class malformed_history = ErrorClass.type_error
error_class producer_fields_missing = ErrorClass.type_error
error_class unknown_run = ErrorClass.key_error
error_class unknown_operation = ErrorClass.key_error
error_class unknown_planned_operation = ErrorClass.key_error
error_class source_not_configured = ErrorClass.key_error
error_class unknown_observation = ErrorClass.key_error
error_class artifact_absent = ErrorClass.key_error
error_class unknown_snapshot = ErrorClass.key_error
error_class no_complete_snapshot = ErrorClass.key_error
error_class not_a_member = ErrorClass.key_error
error_class unknown_source = ErrorClass.key_error
error_class unknown_content = ErrorClass.key_error
error_class unknown_dataset = ErrorClass.key_error
error_class writer_closed = ErrorClass.runtime_error
error_class blob_unavailable = ErrorClass.file_not_found_error
error_class cancelled = ErrorClass.cancelled_error
error_class _ = ErrorClass.value_error

-- What a function of the code comes to.
pub data Result {κ} (B : Type κ) : Type κ where
  raise : Fault → Result B
  ok : B → Result B

pub ok_injective {κ} : {B : Type κ} {x y : B} → ok x ≡ ok y → x ≡ y
ok_injective h = cc

pub Result-cases {κ} :
    {B : Type κ} (r : Result B) → ((f : Fault) × (r ≡ raise f)) ⊎ ((x : B) × (r ≡ ok x))
Result-cases (raise f) = inl (f, refl)
Result-cases (ok x) = inr (x, refl)

-- An exception goes past what follows.
infixl 5 ◌>>=◌
abbrev pub ◌>>=◌ {ℓ κ} : {A : Type ℓ} {B : Type κ} (r : Result A) (next : A → Result B) → Result B
raise fault >>= next = raise fault
ok x >>= next = next x

-- The steps of two calls in a row that both return.
pub >>=-eq-ok {κ ℓ} :
    {B : Type κ} {A : Type ℓ} {last : B} (r : Result A) (next : A → Result B)
    → (r >>= next) ≡ ok last
    → (x : A) × (r ≡ ok x) × (next x ≡ ok last)
>>=-eq-ok (raise fault) next h = cc
>>=-eq-ok (ok x) next h = (x, refl, h)

module _ {ℓ κ} {A : Type ℓ} {B : Type κ} (f : A → Result B) where
  -- `[f(x) for x in xs]`, where the first exception goes past the rest.
  unfoldable pub traverse : List A → Result (List B)
  traverse [] = ok []
  traverse (x ∷ xs) = do y ← f x; ys ← traverse xs; ok (y ∷ ys)

  traverse-cons :
      (x : A) (xs : List A) (zs : List B)
      → traverse (x ∷ xs) ≡ ok zs
      → (y : B) × (ys : List B) × (f x ≡ ok y) × (traverse xs ≡ ok ys) × (y ∷ ys ≡ zs)
  unfolding traverse
  traverse-cons x xs zs h =
      let (y, e, g) = >>=-eq-ok (f x) _ h in
      let (ys, d, k) = >>=-eq-ok (traverse xs) _ g in (y, ys, e, d, ok_injective k)

  -- Each element has its result among the results, and each result is one of an element.
  pub traverse-of :
      (xs : List A) (ys : List B) (x : A)
      → traverse xs ≡ ok ys
      → Member x xs
      → (y : B) × Member y ys × (f x ≡ ok y)
  traverse-of [] ys x h m = absurd (m tt)
  traverse-of (z ∷ zs) ys x h m =
      let (w, ws, e, d, q) = traverse-cons z zs ys h in
      elim m [
        | inl r ↦ (w, subst (Member w) q (inl refl), ap f r ∙ e)
        | inr n ↦ let (y, k, i) = traverse-of zs ws x d n in (y, subst (Member y) q (inr k), i)
      ]

  pub traverse-from :
      (xs : List A) (ys : List B) (y : B)
      → traverse xs ≡ ok ys
      → Member y ys
      → (x : A) × Member x xs × (f x ≡ ok y)
  unfolding traverse
  traverse-from [] ys y h m = absurd (subst (Member y) (sym (ok_injective h)) m tt)
  traverse-from (z ∷ zs) ys y h m =
      let (w, ws, e, d, q) = traverse-cons z zs ys h in
      elim (subst (Member y) (sym q) m) [
        | inl r ↦ (z, inl refl, e ∙ ap ok (sym r))
        | inr n ↦ let (x, k, i) = traverse-from zs ws y d n in (x, inr k, i)
      ]

-- What one function returns for each element, another that agrees with it where it returns does too.
pub traverse-agree {ℓ κ} :
    {A : Type ℓ} {B : Type κ} (f g : A → Result B) (xs : List A) (ys : List B)
    → ((x : A) → Member x xs → (y : B) → f x ≡ ok y → g x ≡ ok y)
    → traverse f xs ≡ ok ys
    → traverse g xs ≡ ok ys
unfolding traverse
traverse-agree f g [] ys agree h = h
traverse-agree f g (x ∷ xs) ys agree h =
    let (y, zs, e, d, q) = traverse-cons f x xs ys h in
    rw (agree x (inl refl) y e, traverse-agree f g xs zs (λ z m. agree z (inr m)) d) (ap ok q)
