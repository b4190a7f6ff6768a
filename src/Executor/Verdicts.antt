-- ===== src/Executor/Verdicts.antt =====
-- The results that the loop of `_execute_operations` ends with.
use mathlib.Core.Path.{subst}
use mathlib.Core.Option.{some-injective}
use efloud.Prelude.{
  ℕ, zero, suc, String, Bool, true, List, [], ◌∷◌, some, not, map, ◌&&◌, ◌≡◌, refl, sym, ap, ◌∙◌,
  arith, inl, inr,
}
use efloud.Prelude.{
  ◌==◌, string_eq, all, any, any-false_iff, Member, Distinct, is_some, Bool-cases, Option-cases,
}
use efloud.Prelude.Sort.{sort, Member-sort}
use efloud.Prelude.Dict
use efloud.Prelude.Dict.{Dict, lookup, keys, values}
use efloud.Prelude.Keyed.{lookup_of_Member-values, lookup-Keyed}
use efloud.Prelude.Indexed.{sort-Distinct}
use efloud.Errors.{ok}
use efloud.Planning.{PlannedOperation, operation_key}
use efloud.Executor.Store.{after-eq-ok, Services}
use efloud.Executor.Operation.{OperationExecutionResult, ExecutionContext, is_blocked, is_succeeded}
use efloud.Executor.Waves.{
  Results, result_key, ready_operations, still_pending, settle, execute_wave, update, run_waves,
  has_succeeded, is_success, in_order, result_leb,
}
use efloud.Executor.Listing.{
  Member-values-sort, Keyed-pair, keys-values, keys-eq-first, same_operation,
}
use efloud.Executor.Entries.{Settling}
use efloud.Executor.Steps.{return-ok, execute_wave-AllExecuted}
use efloud.Executor.Blocking.{settle-IsSettled}
use efloud.Executor.Scheduling.{
  Progress, pass-Progress, Ready-cases, ready-Startable, ready-Distinct,
}

-- Every operation has a result, and each result its verdict.
pub record Finished (ops : List PlannedOperation) (results : Results) : Type 0 where
  pub settling : Settling ops results
  pub covered : (o : PlannedOperation) → Member o ops → Dict.has o.operation_key results ≡ true

-- The list has a success under the key.
abbrev pub listed_success : List OperationExecutionResult → String → Bool
listed_success rs key = any (λ r. r.operation_key == key && is_succeeded r.status) rs

-- The result of the operation, blocked exactly if one of its dependencies has not succeeded.
pub record Verdict (o : PlannedOperation) (rs : List OperationExecutionResult) : Type 0 where
  pub result : OperationExecutionResult
  pub listed : Member result rs
  pub named : result.operation_key ≡ o.operation_key
  pub verdict : is_blocked result.status ≡ not (all (listed_success rs) o.dependencies)

module _ {S : Type 0} (services : Services S) (context : ExecutionContext) where
  pub run_waves-Finished :
      (ops : List PlannedOperation) (fuel : ℕ) (pending : List PlannedOperation) (results : Results)
      (s t : S) (x : Results)
      → Progress ops results pending
      → run_waves services context fuel pending results s ≡ (ok (some x), t)
      → Finished ops x
  unfolding run_waves
  run_waves-Finished ops fuel [] results s t x g h =
      subst (Finished ops) (some-injective _ _ (return-ok (some results) (some x) s t h)) (record {
        settling = g.settling;
        covered = λ o m. elim (g.covered o m) [ inl k ↦ k | inr n ↦ absurd (n tt) ];
      })
  run_waves-Finished ops zero (p ∷ ps) results s t x g h = cc
  run_waves-Finished ops (suc fuel) (p ∷ ps) results s t x g h =
      let start = ready-Startable results (p ∷ ps) ops g in
      let u = ready-Distinct results (p ∷ ps) g.unique in
      elim (Ready-cases (ready_operations results (p ∷ ps))) [
        | inl none_ready ↦ absurd (ground (arith, rw (none_ready, run_waves) at h))
        | inr (o, os, e) ↦
            let (settled, v, f, k) =
              after-eq-ok (settle services context (o ∷ os) results s) _ t
                (rw (e, run_waves) at h) in
            let (rs, w, d, l) = after-eq-ok (execute_wave services context settled.1 v) _ t k in
            let i =
              settle-IsSettled services context ops (ready_operations results (p ∷ ps)) results s v
                settled.0 settled.1 g.settling start u
                (subst (λ z. settle services context z results s ≡ (ok settled, v)) (sym e) f) in
            run_waves-Finished ops fuel (still_pending (o ∷ os) (p ∷ ps)) (update settled.0 rs) w t
              x
              (subst (λ z. Progress ops (update settled.0 rs) (still_pending z (p ∷ ps))) e
                (pass-Progress results (p ∷ ps) ops settled.0 settled.1 rs g i
                  (execute_wave-AllExecuted services context settled.1 v w rs d)))
              l
      ]

module _ (ops : List PlannedOperation) (results : Results) (f : Finished ops results) where
  pub listed_success-eq :
      (d : String) → listed_success (in_order results) d ≡ has_succeeded results d
  listed_success-eq d =
      let test = λ (r : OperationExecutionResult). r.operation_key == d && is_succeeded r.status in
      elim (Bool-cases (has_succeeded results d)) [
        | inl good ↦ elim (Option-cases (lookup d results)) [
          | inl e ↦ absurd (ground arith)
          | inr (r, e) ↦ elim (Bool-cases (listed_success (in_order results) d)) [
            | inl found ↦ found ∙ sym good
            | inr missed ↦
                let m =
                  (Member-values-sort result_leb r results).1
                    (Dict.Member-values_of_lookup d r results e) in
                let key = lookup-Keyed result_key d r results f.settling.keyed e in
                let not_r = (any-false_iff test (in_order results)).0 missed r m in
                absurd (ground (arith, string_eq.beq_iff r.operation_key d))
          ]
        ]
        | inr bad ↦
            (any-false_iff test (in_order results)).1 (λ r m.
              let k = (Member-values-sort result_leb r results).0 m in
              let e =
                lookup_of_Member-values result_key r results f.settling.keyed f.settling.unique k in
              elim (Bool-cases (r.operation_key == d)) [
                | inr other ↦ ground arith
                | inl same ↦ ground (
                  arith,
                  ap is_success (
                      subst (λ x. lookup x results ≡ some r)
                        ((string_eq.beq_iff r.operation_key d).0 same) e),
                )
              ])
            ∙ sym bad
      ]

  all-listed_success :
      (ds : List String)
      → all (listed_success (in_order results)) ds ≡ all (has_succeeded results) ds
  all-listed_success [] = refl
  all-listed_success (d ∷ ds) =
      ap (λ b. b && all (listed_success (in_order results)) ds) (listed_success-eq d)
      ∙ ap (λ b. has_succeeded results d && b) (all-listed_success ds)

  pub in_order-Distinct : Distinct (map result_key (in_order results))
  in_order-Distinct =
      subst Distinct
        (sym (
          keys-values (sort result_leb results) (λ p m.
            Keyed-pair results p f.settling.keyed ((Member-sort result_leb p results).0 m))))
        (sort-Distinct (λ (p : String × OperationExecutionResult). p.0) result_leb results
          (subst Distinct (keys-eq-first results) f.settling.unique))

  pub Finished-Verdict :
      (o : PlannedOperation)
      → Distinct (map operation_key ops)
      → Member o ops
      → Verdict o (in_order results)
  Finished-Verdict o u m = elim (Option-cases (lookup o.operation_key results)) [
    | inl e ↦ absurd (ground (arith, f.covered o m, ap is_some e))
    | inr (r, e) ↦
        let entry = f.settling.entries o.operation_key r e in
        let same = same_operation ops entry.op o u entry.listed m entry.key in
        record {
          result = r;
          listed =
              (Member-values-sort result_leb r results).1
                (Dict.Member-values_of_lookup o.operation_key r results e);
          named = sym (lookup-Keyed result_key o.operation_key r results f.settling.keyed e);
          verdict =
              subst
                (λ (z : PlannedOperation).
                  is_blocked r.status ≡ not (all (has_succeeded results) z.dependencies))
                same entry.verdict
              ∙ ap not (sym (all-listed_success o.dependencies));
        }
  ]
