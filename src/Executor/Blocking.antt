-- ===== src/Executor/Blocking.antt =====
-- The loop over the operations that are ready: which are blocked, and which are left to the wave.
use mathlib.Core.Path.{subst}
use efloud.Prelude.{true, false, List, [], ◌∷◌, not, map, ◌≡◌, refl, sym, ap, ◌∙◌, arith, inl, inr}
use efloud.Prelude.{string_eq, All, contains, Distinct}
use efloud.Prelude.Dict
use efloud.Prelude.Dict.{lookup, keys}
use efloud.Errors.{ok}
use efloud.Planning.{PlannedOperation, operation_key}
use efloud.Executor.Store.{after, after-eq-ok, Services}
use efloud.Executor.Operation.{OperationExecutionResult, ExecutionContext, blocked_operation}
use efloud.Executor.Waves.{Results, has_succeeded, failed_dependencies, settle}
use efloud.Executor.Entries.{
  Kept-has, Kept-refl, Kept-trans, insert-Kept, all-succeeded-Kept, all-has-Kept, Settling,
  Startable, insert-Settling,
}
use efloud.Executor.Steps.{
  List-cases, all_of_none_failed, all_of_some_failed, return-ok, blocked_operation-blocked,
}
use efloud.Executor.Settle.{
  IsClear, IsSettled, has-insert_self, lookup-insert_other, All-Startable-insert,
}

module _ (ops : List PlannedOperation) (results : Results) where
  IsSettled-nil : Settling ops results → IsSettled ops results [] results []
  IsSettled-nil s = record {
    settling = s;
    kept = Kept-refl results;
    startable = tt;
    clear = tt;
    unique = tt;
    fewer = λ k h. h;
    covered = λ o m. absurd (m tt);
    untouched = λ k h. refl;
  }

  IsSettled-run :
      (o : PlannedOperation) (os : List PlannedOperation) (after : Results)
      (ex : List PlannedOperation)
      → Startable ops results o
      → IsClear results o
      → contains (map operation_key os) o.operation_key ≡ false
      → IsSettled ops results os after ex
      → IsSettled ops results (o ∷ os) after (o ∷ ex)
  IsSettled-run o os after ex start clear out s = record {
    settling = s.settling;
    kept = s.kept;
    startable = (
      record {
        listed = start.listed;
        ready = all-has-Kept results after s.kept o.dependencies start.ready;
        fresh = s.untouched o.operation_key out ∙ start.fresh;
      },
      s.startable,
    );
    clear = (all-succeeded-Kept results after s.kept o.dependencies start.ready ∙ clear, s.clear);
    unique = (s.fewer o.operation_key out, s.unique);
    fewer = λ k h. ground (arith, s.fewer k);
    covered = λ p m. elim m [
      | inl e ↦ inr (inl e)
      | inr n ↦ elim (s.covered p n) [ inl d ↦ inl d | inr x ↦ inr (inr x) ]
    ];
    untouched = λ k h. s.untouched k (ground arith);
  }

  IsSettled-block :
      (o : PlannedOperation) (os : List PlannedOperation) (r : OperationExecutionResult)
      (after : Results) (ex : List PlannedOperation)
      → Startable ops results o
      → contains (map operation_key os) o.operation_key ≡ false
      → IsSettled ops (Dict.insert o.operation_key r results) os after ex
      → IsSettled ops results (o ∷ os) after ex
  IsSettled-block o os r after ex start out s =
      let mid = Dict.insert o.operation_key r results in
      let kept = insert-Kept o.operation_key r results start.fresh in
      record {
        settling = s.settling;
        kept = Kept-trans results mid after kept s.kept;
        startable = s.startable;
        clear = s.clear;
        unique = s.unique;
        fewer = λ k h. s.fewer k (ground arith);
        covered = λ p m. elim m [
          | inl e ↦ inl (
              subst (λ z. Dict.has z.operation_key after ≡ true) (sym e)
                (Kept-has mid after s.kept o.operation_key
                  (has-insert_self o.operation_key r results)))
          | inr n ↦ s.covered p n
        ];
        untouched = λ k h.
            s.untouched k (ground arith)
            ∙ lookup-insert_other k o.operation_key r results (
                ground (
                  arith,
                  string_eq.beq_iff k o.operation_key,
                  string_eq.beq_iff o.operation_key k,
                ));
      }

module _ {S : Type 0} (services : Services S) (context : ExecutionContext)
    (ops : List PlannedOperation) where
  -- The loop over `ready` leaves to the wave the operations whose dependencies all succeeded.
  pub settle-IsSettled :
      (os : List PlannedOperation) (results : Results) (s t : S) (after : Results)
      (ex : List PlannedOperation)
      → Settling ops results
      → All (Startable ops results) os
      → Distinct (map operation_key os)
      → settle services context os results s ≡ (ok (after, ex), t)
      → IsSettled ops results os after ex
  unfolding settle
  settle-IsSettled [] results s t later ex g start u h =
      let e = return-ok (results, []) (later, ex) s t h in
      subst (λ z. IsSettled ops results [] z.0 z.1) e (IsSettled-nil ops results g)
  settle-IsSettled (o ∷ os) results s t later ex g start u h =
      elim (List-cases (failed_dependencies results o)) [
        | inl e ↦
            let (rest, v, f, l) =
              after-eq-ok (settle services context os results s) _ t (rw (e, settle) at h) in
            subst (λ z. IsSettled ops results (o ∷ os) z.0 z.1)
              (return-ok (rest.0, o ∷ rest.1) (later, ex) v t l)
              (IsSettled-run ops results o os rest.0 rest.1 start.0
                (all_of_none_failed (has_succeeded results) o.dependencies e) u.0
                (settle-IsSettled os results s v rest.0 rest.1 g start.1 u.1 f))
        | inr (d, ds, e) ↦
            let (r, v, f, l) =
              after-eq-ok (blocked_operation services context o (d ∷ ds) s)
                (λ r. settle services context os (Dict.insert o.operation_key r results)) t
                (rw (e, settle) at h) in
            let (named, blocked) = blocked_operation-blocked services context o (d ∷ ds) s v r f in
            let mid = Dict.insert o.operation_key r results in
            IsSettled-block ops results o os r later ex start.0 u.0 (
              settle-IsSettled os mid v t later ex
                (insert-Settling ops results o r g start.0 named (
                  blocked
                  ∙ sym
                      (ap not (all_of_some_failed (has_succeeded results) o.dependencies d ds e))))
                (All-Startable-insert ops results o.operation_key r os start.0.fresh u.0 start.1)
                u.1 l)
      ]
