-- ===== src/Executor/Scheduling.antt =====
-- One pass of the loop of `_execute_operations`, and its fuel.
use mathlib.Core.Path.{subst}
use efloud.Prelude.{
  ℕ, zero, suc, ◌≤◌, ◌<◌, Bool, true, false, List, [], ◌∷◌, Option, none, some, not, map, ◌≡◌, refl,
  sym, ap, ◌∙◌, arith, inl, inr, ◌⊎◌,
}
use efloud.Prelude.{
  string_eq, All, All-of, filter, contains, contains_iff, Member, Member-filter, Member-map,
  Distinct, is_some, Bool-cases, length, length-filter-le,
}
use efloud.Prelude.Sort.{Member-sort}
use efloud.Prelude.Dict
use efloud.Prelude.Dict.{lookup}
use efloud.Prelude.Indexed.{sort-Distinct, filter-Distinct}
use efloud.Errors.{ok}
use efloud.Planning.{PlannedOperation, operation_key, operation_leb}
use efloud.Executor.Store.{after-eq-ok, Services}
use efloud.Executor.Operation.{OperationExecutionResult, ExecutionContext}
use efloud.Executor.Waves.{
  Results, is_ready, ready_operations, still_pending, settle, execute_wave, update, run_waves,
}
use efloud.Executor.Entries.{Kept-has, Settling, Startable}
use efloud.Executor.Steps.{return-ok, AllExecuted}
use efloud.Executor.Settle.{IsSettled, update-Settling}

-- What holds each time that the loop is entered.
pub record Progress (ops : List PlannedOperation) (results : Results)
    (pending : List PlannedOperation) : Type 0 where
  pub settling : Settling ops results
  pub listed : (o : PlannedOperation) → Member o pending → Member o ops
  pub fresh : (o : PlannedOperation) → Member o pending → lookup o.operation_key results ≡ none
  pub unique : Distinct (map operation_key pending)
  pub covered :
      (o : PlannedOperation)
      → Member o ops
      → (Dict.has o.operation_key results ≡ true) ⊎ Member o pending

module _ (results : Results) (pending : List PlannedOperation) where
  pub Member-ready :
      (o : PlannedOperation)
      → Member o (ready_operations results pending)
      → Member o pending × (is_ready results o ≡ true)
  Member-ready o m =
      (Member-filter (is_ready results) o pending).0
        ((Member-sort operation_leb o (filter (is_ready results) pending)).0 m)

  pub ready-Startable :
      (ops : List PlannedOperation)
      → Progress ops results pending
      → All (Startable ops results) (ready_operations results pending)
  ready-Startable ops g = All-of (Startable ops results) (ready_operations results pending) (λ o m.
      let k = Member-ready o m in
      record { listed = g.listed o k.0; ready = k.1; fresh = g.fresh o k.0 })

  pub ready-Distinct :
      Distinct (map operation_key pending)
      → Distinct (map operation_key (ready_operations results pending))
  ready-Distinct u =
      sort-Distinct operation_key operation_leb (filter (is_ready results) pending)
        (filter-Distinct operation_key (is_ready results) pending u)

  -- One pass of the loop.
  pub pass-Progress :
      (ops : List PlannedOperation) (later : Results) (ex : List PlannedOperation)
      (rs : List OperationExecutionResult)
      → Progress ops results pending
      → IsSettled ops results (ready_operations results pending) later ex
      → AllExecuted ex rs
      → Progress ops (update later rs) (still_pending (ready_operations results pending) pending)
  pass-Progress ops later ex rs g s done =
      let ready = ready_operations results pending in
      let is_left =
        λ (o : PlannedOperation). not (contains (map operation_key ready) o.operation_key) in
      let (settling, kept, covered, untouched) =
        update-Settling ops later ex rs s.settling s.startable s.clear s.unique done in
      let has_end = Kept-has later (update later rs) kept in
      record {
        settling = settling;
        listed = λ o m. g.listed o ((Member-filter is_left o pending).0 m).0;
        fresh = λ o m.
            let k = (Member-filter is_left o pending).0 m in
            untouched o.operation_key (s.fewer o.operation_key (ground arith))
            ∙ s.untouched o.operation_key (ground arith)
            ∙ g.fresh o k.0;
        unique = filter-Distinct operation_key is_left pending g.unique;
        covered = λ o m. elim (g.covered o m) [
          | inl h ↦ inl (has_end o.operation_key (Kept-has results later s.kept o.operation_key h))
          | inr p ↦ elim (Bool-cases (contains (map operation_key ready) o.operation_key)) [
            | inr left ↦ inr ((Member-filter is_left o pending).1 (p, ap not left))
            | inl taken ↦
                let (q, n, e) =
                  Member-map operation_key o.operation_key ready
                    ((contains_iff (map operation_key ready) o.operation_key).0 taken) in
                inl (
                  subst (λ k. Dict.has k (update later rs) ≡ true) (sym e)
                    (elim (s.covered q n) [
                      | inl h ↦ has_end q.operation_key h
                      | inr x ↦ covered q x
                    ]))
          ]
        ];
      }

shorter :
    (p : PlannedOperation → Bool) (o : PlannedOperation) (os : List PlannedOperation)
    → Member o os
    → p o ≡ false
    → length (filter p os) < length os
shorter p o [] m h = absurd (m tt)
shorter p o (x ∷ xs) m h = elim m [
  | inl e ↦ ground (arith, length-filter-le p xs, subst (λ z. p z ≡ false) e h)
  | inr n ↦ ground (arith, shorter p o xs n h)
]

-- A wave takes at least one operation from those that are pending.
pub still_pending_shorter :
    (results : Results) (pending : List PlannedOperation) (o : PlannedOperation)
    (os : List PlannedOperation)
    → ready_operations results pending ≡ o ∷ os
    → length (still_pending (o ∷ os) pending) < length pending
still_pending_shorter results pending o os e =
    let m = (Member-ready results pending o (subst (Member o) (sym e) (inl refl))).0 in
    shorter (λ p. not (contains (map operation_key (o ∷ os)) p.operation_key)) o pending m
      (ground (arith, string_eq.beq_iff o.operation_key o.operation_key))

pub Ready-cases :
    (os : List PlannedOperation)
    → (os ≡ []) ⊎ ((x : PlannedOperation) × (xs : List PlannedOperation) × (os ≡ x ∷ xs))
Ready-cases [] = inl refl
Ready-cases (x ∷ xs) = inr (x, xs, refl)

module _ {S : Type 0} (services : Services S) (context : ExecutionContext) where
  -- With a wave of fuel for each operation that is pending, the loop never runs out.
  pub run_waves_enough :
      (fuel : ℕ) (pending : List PlannedOperation) (results : Results) (s t : S)
      (x : Option Results)
      → length pending ≤ fuel
      → run_waves services context fuel pending results s ≡ (ok x, t)
      → is_some x ≡ true
  unfolding run_waves
  run_waves_enough fuel [] results s t x le h = ap is_some (sym (return-ok (some results) x s t h))
  run_waves_enough zero (p ∷ ps) results s t x le h = ground arith
  run_waves_enough (suc fuel) (p ∷ ps) results s t x le h =
      elim (Ready-cases (ready_operations results (p ∷ ps))) [
        | inl none_ready ↦ absurd (ground (arith, rw (none_ready, run_waves) at h))
        | inr (o, os, e) ↦
            let less = still_pending_shorter results (p ∷ ps) o os e in
            let (settled, u, f, k) =
              after-eq-ok (settle services context (o ∷ os) results s) _ t
                (rw (e, run_waves) at h) in
            let (rs, v, g, l) = after-eq-ok (execute_wave services context settled.1 u) _ t k in
            run_waves_enough fuel (still_pending (o ∷ os) (p ∷ ps)) (update settled.0 rs) v t x
              (omega arith) l
      ]
