-- ===== src/Executor/Settle.antt =====
-- One wave of executor.py: the state after its operations are settled, and the added results.
use mathlib.Core.Path.{subst}
use efloud.Prelude.{
  String, true, false, List, [], ◌∷◌, none, not, map, ◌≡◌, refl, sym, ap, ◌∙◌, arith, inl, inr, ◌⊎◌,
}
use efloud.Prelude.{◌==◌, string_eq, all, All, All-of, All-at, contains, Member, Distinct, is_some}
use efloud.Prelude.Dict
use efloud.Prelude.Dict.{lookup, keys}
use efloud.Planning.{PlannedOperation, operation_key}
use efloud.Executor.Operation.{OperationExecutionResult}
use efloud.Executor.Waves.{Results, has_succeeded, update}
use efloud.Executor.Entries.{
  Kept, Kept-has, Kept-refl, Kept-trans, insert-Kept, all-succeeded-Kept, Settling, Startable,
  Startable-insert, insert-Settling,
}
use efloud.Executor.Steps.{AllExecuted}

-- All dependencies succeeded.
abbrev pub IsClear : Results → PlannedOperation → Type 0
IsClear results o = all (has_succeeded results) o.dependencies ≡ true

-- The state after the loop over `ready`.
pub record IsSettled (ops : List PlannedOperation) (results : Results) (os : List PlannedOperation)
    (after : Results) (ex : List PlannedOperation) : Type 0 where
  pub settling : Settling ops after
  pub kept : Kept results after
  pub startable : All (Startable ops after) ex
  pub clear : All (IsClear after) ex
  pub unique : Distinct (map operation_key ex)
  pub fewer :
      (k : String)
      → contains (map operation_key os) k ≡ false
      → contains (map operation_key ex) k ≡ false
  pub covered :
      (o : PlannedOperation) → Member o os → (Dict.has o.operation_key after ≡ true) ⊎ Member o ex
  pub untouched :
      (k : String) → contains (map operation_key os) k ≡ false → lookup k after ≡ lookup k results

pub has-insert_self :
    (k : String) (r : OperationExecutionResult) (results : Results)
    → Dict.has k (Dict.insert k r results) ≡ true
has-insert_self k r results = ap is_some (Dict.lookup-insert_self k r results)

pub lookup-insert_other :
    (j k : String) (r : OperationExecutionResult) (results : Results)
    → (k == j) ≡ false
    → lookup j (Dict.insert k r results) ≡ lookup j results
lookup-insert_other j k r results h =
    ground (arith, Dict.lookup-insert j k r results, string_eq.beq_iff j k, string_eq.beq_iff k j)

module _ (ops : List PlannedOperation) where
  pub All-Startable-insert :
      (results : Results) (k : String) (r : OperationExecutionResult) (os : List PlannedOperation)
      → lookup k results ≡ none
      → contains (map operation_key os) k ≡ false
      → All (Startable ops results) os
      → All (Startable ops (Dict.insert k r results)) os
  All-Startable-insert results k r [] fresh out h = tt
  All-Startable-insert results k r (o ∷ os) fresh out h = (
    Startable-insert ops results k r o fresh
        (ground (arith, string_eq.beq_iff k o.operation_key, string_eq.beq_iff o.operation_key k))
        h.0,
    All-Startable-insert results k r os fresh (ground arith) h.1,
  )

  -- Results of executed operations are added with the right verdict.
  pub update-Settling :
      (results : Results) (os : List PlannedOperation) (rs : List OperationExecutionResult)
      → Settling ops results
      → All (Startable ops results) os
      → All (IsClear results) os
      → Distinct (map operation_key os)
      → AllExecuted os rs
      → Settling ops (update results rs)
        × Kept results (update results rs)
        × ((o : PlannedOperation)
            → Member o os
            → Dict.has o.operation_key (update results rs) ≡ true)
        × ((k : String)
            → contains (map operation_key os) k ≡ false
            → lookup k (update results rs) ≡ lookup k results)
  update-Settling results [] [] s start clear u done =
      (s, Kept-refl results, λ o m. absurd (m tt), λ k h. refl)
  update-Settling results [] (r ∷ rs) s start clear u done = absurd done
  update-Settling results (o ∷ os) [] s start clear u done = absurd done
  update-Settling results (o ∷ os) (r ∷ rs) s start clear u done =
      let named = done.0.0 in
      let later = Dict.insert o.operation_key r results in
      let kept = insert-Kept o.operation_key r results start.0.fresh in
      let later_start =
        All-Startable-insert results o.operation_key r os start.0.fresh u.0 start.1 in
      let later_clear = All-of (IsClear later) os (λ p m.
        all-succeeded-Kept results later kept p.dependencies
          (All-at (Startable ops results) p os start.1 m).ready
        ∙ All-at (IsClear results) p os clear.1 m) in
      let one = insert-Settling ops results o r s start.0 named (done.0.1 ∙ sym (ap not clear.0)) in
      let (rest, grown, covered, untouched) =
        update-Settling later os rs one later_start later_clear u.1 done.1 in
      subst
        (λ k.
          let end = update (Dict.insert k r results) rs in
          Settling ops end
          × Kept results end
          × ((p : PlannedOperation) → Member p (o ∷ os) → Dict.has p.operation_key end ≡ true)
          × ((j : String)
              → contains (map operation_key (o ∷ os)) j ≡ false
              → lookup j end ≡ lookup j results))
        (sym named)
        (
          rest,
          Kept-trans results later (update later rs) kept grown,
          λ p m. elim m [
            | inl e ↦
                subst (λ z. Dict.has z.operation_key (update later rs) ≡ true) (sym e)
                  (Kept-has later (update later rs) grown o.operation_key
                    (has-insert_self o.operation_key r results))
            | inr n ↦ covered p n
          ],
          λ j h.
              untouched j (ground arith)
              ∙ lookup-insert_other j o.operation_key r results (
                  ground (
                    arith,
                    string_eq.beq_iff j o.operation_key,
                    string_eq.beq_iff o.operation_key j,
                  )),
        )
