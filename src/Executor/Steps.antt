-- ===== src/Executor/Steps.antt =====
-- The steps of a wave of executor.py, by themselves.
use mathlib.Core.Path.{subst}
use efloud.Prelude.{
  String, Bool, true, false, List, [], ◌∷◌, not, ◌≡◌, refl, ap, arith, inl, inr, ◌⊎◌,
}
use efloud.Prelude.{string_eq, all, filter}
use efloud.Errors.{ok, ok_injective}
use efloud.Planning.{PlannedOperation}
use efloud.Models.{OperationId}
use efloud.Executor.Store.{
  return, after-eq-ok, Services, Attempt, recorded, raised, interrupted, RecordedStatus,
}
use efloud.Executor.Operation.{
  OperationExecutionResult, ExecutionContext, is_blocked, status_of, execute_operation,
  blocked_operation, conclude, start_operation, attempt,
}
use efloud.Executor.Waves.{execute_wave}

pub List-cases :
    (xs : List String) → (xs ≡ []) ⊎ ((y : String) × (ys : List String) × (xs ≡ y ∷ ys))
List-cases [] = inl refl
List-cases (y ∷ ys) = inr (y, ys, refl)

pub all_of_none_failed :
    (p : String → Bool) (ds : List String) → filter (λ d. not (p d)) ds ≡ [] → all p ds ≡ true
all_of_none_failed p [] h = refl
all_of_none_failed p (d ∷ ds) h = ground (arith, all_of_none_failed p ds)

pub all_of_some_failed :
    (p : String → Bool) (ds : List String) (x : String) (xs : List String)
    → filter (λ d. not (p d)) ds ≡ x ∷ xs
    → all p ds ≡ false
all_of_some_failed p [] x xs h = cc
all_of_some_failed p (d ∷ ds) x xs h = ground (arith, all_of_some_failed p ds x xs)

status_not_blocked : (s : RecordedStatus) → is_blocked (status_of s) ≡ false
status_not_blocked RecordedStatus.succeeded = refl
status_not_blocked RecordedStatus.failed = refl

-- What an executed operation gives: a result of its own, not a blocked one.
abbrev pub IsExecuted : PlannedOperation → OperationExecutionResult → Type 0
IsExecuted o r = (r.operation_key ≡ o.operation_key) × (is_blocked r.status ≡ false)

abbrev pub AllExecuted : List PlannedOperation → List OperationExecutionResult → Type 0
AllExecuted [] [] = Unit
AllExecuted [] (r ∷ rs) = ⊥
AllExecuted (o ∷ os) [] = ⊥
AllExecuted (o ∷ os) (r ∷ rs) = IsExecuted o r × AllExecuted os rs

pub return-ok : {S A : Type 0} (a b : A) (s t : S) → return a s ≡ (ok b, t) → a ≡ b
return-ok a b s t h = ok_injective (ap (λ p. p.0) h)

module _ {S : Type 0} (services : Services S) (context : ExecutionContext) where
  conclude-IsExecuted :
      (o : PlannedOperation) (id : OperationId) (a : Attempt) (s t : S)
      (r : OperationExecutionResult)
      → conclude services context o id a s ≡ (ok r, t)
      → IsExecuted o r
  unfolding conclude
  conclude-IsExecuted o id (recorded status observation_ids details) s t r h =
      let (x, u, e, k) = after-eq-ok (services.finish_operation id _ details s) _ t h in
      subst (IsExecuted o) (return-ok _ r u t k) (refl, status_not_blocked status)
  conclude-IsExecuted o id (raised text) s t r h =
      let (x, u, e, k) = after-eq-ok (services.finish_operation id "failed" _ s) _ t h in
      subst (IsExecuted o) (return-ok _ r u t k) (refl, refl)
  conclude-IsExecuted o id interrupted s t r h =
      let (x, u, e, k) = after-eq-ok (services.finish_operation id "cancelled" _ s) _ t h in cc

  execute_operation-IsExecuted :
      (o : PlannedOperation) (s t : S) (r : OperationExecutionResult)
      → execute_operation services context o s ≡ (ok r, t)
      → IsExecuted o r
  unfolding execute_operation
  execute_operation-IsExecuted o s t r h =
      let (id, u, e, k) = after-eq-ok (start_operation services context o s) _ t h in
      let (a, v, f, l) =
        after-eq-ok (attempt services context o id u) (conclude services context o id) t k in
      conclude-IsExecuted o id a v t r l

  pub execute_wave-AllExecuted :
      (os : List PlannedOperation) (s t : S) (rs : List OperationExecutionResult)
      → execute_wave services context os s ≡ (ok rs, t)
      → AllExecuted os rs
  unfolding execute_wave
  execute_wave-AllExecuted [] s t rs h = subst (AllExecuted []) (return-ok [] rs s t h) tt
  execute_wave-AllExecuted (o ∷ os) s t rs h =
      let (r, u, e, k) = after-eq-ok (execute_operation services context o s) _ t h in
      let (more, v, f, l) = after-eq-ok (execute_wave services context os u) _ t k in
      subst (AllExecuted (o ∷ os)) (return-ok (r ∷ more) rs v t l)
        (execute_operation-IsExecuted o s u r e, execute_wave-AllExecuted os u v more f)

  pub blocked_operation-blocked :
      (o : PlannedOperation) (ds : List String) (s t : S) (r : OperationExecutionResult)
      → blocked_operation services context o ds s ≡ (ok r, t)
      → (r.operation_key ≡ o.operation_key) × (is_blocked r.status ≡ true)
  unfolding blocked_operation
  blocked_operation-blocked o ds s t r h =
      let (id, u, e, k) = after-eq-ok (start_operation services context o s) _ t h in
      let (x, v, f, l) = after-eq-ok (services.finish_operation id "cancelled" _ u) _ t k in
      subst (λ z. (z.operation_key ≡ o.operation_key) × (is_blocked z.status ≡ true))
        (return-ok _ r v t l) (refl, refl)
