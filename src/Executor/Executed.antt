-- ===== src/Executor/Executed.antt =====
-- `_execute_operations` as a whole: its results for the plan that it is given.
use mathlib.Core.Path.{subst}
use mathlib.Core.Option.{some-injective}
use efloud.Prelude.{
  Bool, true, false, List, [], Option, none, some, map, ◌≡◌, refl, sym, ap, ◌∙◌, arith, inr,
}
use efloud.Prelude.{if◌then◌else◌, string_eq, any, Member, Member-map_of, Distinct, is_some, length}
use efloud.Prelude.Dict
use efloud.Prelude.Dict.{lookup, keys, values}
use efloud.Prelude.Keyed.{index, index-Keyed, index-Distinct, keys-eq-map, lookup_of_Member-values}
use efloud.Errors.{ok, Fault}
use efloud.Planning.{PlannedOperation, operation_key, SyncPlan}
use efloud.Executor.Store.{Exec, throw, after-eq-ok, Services}
use efloud.Executor.Operation.{OperationExecutionResult, ExecutionContext}
use efloud.Executor.Waves.{
  Results, result_key, run_waves, pending_operations, execute_operations, in_order, ordered,
  has_unknown, result_leb,
}
use efloud.Executor.Listing.{Member-values-sort}
use efloud.Executor.Entries.{empty-Settling}
use efloud.Executor.Steps.{return-ok}
use efloud.Executor.Scheduling.{Progress, run_waves_enough}
use efloud.Executor.Verdicts.{
  Finished, Verdict, run_waves-Finished, in_order-Distinct, Finished-Verdict,
}

pending-Distinct : (plan : SyncPlan) → Distinct (map operation_key (pending_operations plan))
unfolding pending_operations
pending-Distinct plan =
    subst Distinct
      (keys-eq-map operation_key (index operation_key plan.operations)
        (index-Keyed operation_key plan.operations))
      (index-Distinct operation_key plan.operations)

pub start-Progress :
    (plan : SyncPlan) → Progress (pending_operations plan) [] (pending_operations plan)
start-Progress plan = record {
  settling = empty-Settling (pending_operations plan);
  listed = λ o m. m;
  fresh = λ o m. Dict.lookup-nil o.operation_key;
  unique = pending-Distinct plan;
  covered = λ o m. inr m;
}

ordered-some :
    (x : Option Results) (rs : List OperationExecutionResult)
    → ordered x ≡ some rs
    → (results : Results) × (x ≡ some results) × (in_order results ≡ rs)
ordered-some none rs h = cc
ordered-some (some results) rs h = (results, refl, some-injective _ _ h)

is_some-ordered : (x : Option Results) → is_some (ordered x) ≡ is_some x
is_some-ordered none = refl
is_some-ordered (some results) = refl

past_check :
    {S A : Type 0} (b : Bool) (fault : Fault) (m : Exec S A) (s t : S) (y : A)
    → (if b then throw fault else m) s ≡ (ok y, t)
    → m s ≡ (ok y, t)
past_check true fault m s t y h = absurd (cc)
past_check false fault m s t y h = h

module _ {S : Type 0} (services : Services S) (context : ExecutionContext) where
  -- Past the check of the dependencies the waves are run.
  executed-waves :
      (s t : S) (y : Option (List OperationExecutionResult))
      → execute_operations services context s ≡ (ok y, t)
      → (x : Option Results) × (run_waves services context
            (length (pending_operations context.plan))
            (pending_operations context.plan)
            []
            s
          ≡ (ok x, t))
        × (ordered x ≡ y)
  unfolding execute_operations
  executed-waves s t y h =
      let pending = pending_operations context.plan in
      let ran = past_check (any (has_unknown (map operation_key pending)) pending) _ _ s t y h in
      let (x, u, e, k) =
        after-eq-ok (run_waves services context (length pending) pending [] s) _ t ran in
      (x, e ∙ ap (λ v. (ok x, v)) (ap (λ p. p.1) k), return-ok (ordered x) y u t k)

  -- The fuel of a wave for each operation is enough: what is returned is a list of results.
  pub execute_operations_enough :
      (s t : S) (y : Option (List OperationExecutionResult))
      → execute_operations services context s ≡ (ok y, t)
      → is_some y ≡ true
  execute_operations_enough s t y h =
      let (x, e, k) = executed-waves s t y h in
      let pending = pending_operations context.plan in
      ap is_some (sym k)
      ∙ is_some-ordered x
      ∙ run_waves_enough services context (length pending) pending [] s t x (omega arith) e

  execute_operations-Finished :
      (s t : S) (rs : List OperationExecutionResult)
      → execute_operations services context s ≡ (ok (some rs), t)
      → (results : Results) × Finished (pending_operations context.plan) results
        × (in_order results ≡ rs)
  execute_operations-Finished s t rs h =
      let (x, e, k) = executed-waves s t (some rs) h in
      let pending = pending_operations context.plan in
      let (results, same, listed) = ordered-some x rs k in
      (
        results,
        run_waves-Finished services context pending (length pending) pending [] s t results
            (start-Progress context.plan)
            (subst (λ z. run_waves services context (length pending) pending [] s ≡ (ok z, t)) same
              e),
        listed,
      )

  -- Every operation of the plan has a result, which says that it was blocked exactly if one of the
  -- dependencies has no result that is a success.
  pub execute_operations-Verdict :
      (s t : S) (rs : List OperationExecutionResult)
      → execute_operations services context s ≡ (ok (some rs), t)
      → (o : PlannedOperation) → Member o (pending_operations context.plan)
      → Verdict o rs
  execute_operations-Verdict s t rs h o m =
      let (results, f, e) = execute_operations-Finished s t rs h in
      subst (Verdict o) e (
        Finished-Verdict (pending_operations context.plan) results f o
          (pending-Distinct context.plan) m)

  -- No two results are of one operation, and each is of an operation of the plan.
  pub execute_operations-Distinct :
      (s t : S) (rs : List OperationExecutionResult)
      → execute_operations services context s ≡ (ok (some rs), t)
      → Distinct (map result_key rs)
        × ((r : OperationExecutionResult)
            → Member r rs
            → Member r.operation_key (map operation_key (pending_operations context.plan)))
  execute_operations-Distinct s t rs h =
      let pending = pending_operations context.plan in
      let (results, f, e) = execute_operations-Finished s t rs h in
      subst
        (λ z.
          Distinct (map result_key z)
          × ((r : OperationExecutionResult)
              → Member r z
              → Member r.operation_key (map operation_key pending)))
        e
        (
          in_order-Distinct pending results f,
          λ r m.
              let k = (Member-values-sort result_leb r results).0 m in
              let found =
                lookup_of_Member-values result_key r results f.settling.keyed f.settling.unique k in
              let entry = f.settling.entries r.operation_key r found in
              subst (λ j. Member j (map operation_key pending)) entry.key
                (Member-map_of operation_key entry.op pending entry.listed),
        )
