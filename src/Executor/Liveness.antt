-- ===== src/Executor/Liveness.antt =====
-- The loop of `_execute_operations` on reliable services.
use mathlib.Core.Path.{subst}
use efloud.Prelude.{
  ℕ, zero, suc, ◌≤◌, ◌<◌, String, Bool, true, false, List, [], ◌∷◌, Option, some, not, map, ◌≡◌,
  refl, sym, ap, ◌∙◌, arith, inl, inr,
}
use efloud.Prelude.{
  if◌then◌else◌, leb, string_eq, any, all_iff, any-false_iff, Member, Member-filter, Member-map,
  contains, contains_iff, Bool-cases, length, filter, Distinct,
}
use efloud.Prelude.Sort.{Member-sort}
use efloud.Prelude.Dict
use efloud.Errors.{ok, Fault}
use efloud.Planning.{PlannedOperation, operation_key, operation_leb}
use efloud.Executor.Store.{Exec, return, throw, ◌>>=◌, after, Services}
use efloud.Executor.Operation.{OperationExecutionResult, ExecutionContext}
use efloud.Executor.Waves.{
  Results, is_ready, ready_operations, still_pending, settle, execute_wave, update, run_waves,
  pending_operations, execute_operations, has_unknown, ordered, in_order,
}
use efloud.Executor.Steps.{execute_wave-AllExecuted}
use efloud.Executor.Blocking.{settle-IsSettled}
use efloud.Executor.Scheduling.{
  Progress, Member-ready, pass-Progress, ready-Startable, ready-Distinct, Ready-cases,
  still_pending_shorter,
}
use efloud.Executor.Executed.{start-Progress}
use efloud.Models.{OperationId}
use efloud.Executor.Returns.{
  Reliable, Acyclic, Settled, Apart, other_key, settle-Settled, execute_wave-Advances,
}

module _ (rank : String → ℕ) where
  -- An operation of least rank.
  least :
      (p : PlannedOperation) (ps : List PlannedOperation)
      → (o : PlannedOperation) × Member o (p ∷ ps)
        × ((q : PlannedOperation) → Member q (p ∷ ps) → rank o.operation_key ≤ rank q.operation_key)
  least p [] = (
    p,
    inl refl,
    λ q m. elim m [
      | inl e ↦ subst (λ z. rank p.operation_key ≤ rank z.operation_key) (sym e) (omega arith)
      | inr n ↦ absurd (n tt)
    ],
  )
  least p (x ∷ xs) =
      let (o, m, low) = least x xs in
      elim (Bool-cases (leb (rank p.operation_key) (rank o.operation_key))) [
        | inl le ↦ (
          p,
          inl refl,
          λ q n. elim n [
            | inl e ↦ subst (λ z. rank p.operation_key ≤ rank z.operation_key) (sym e) (omega arith)
            | inr k ↦ ground (arith, low q k)
          ],
        )
        | inr gt ↦ (
          o,
          inr m,
          λ q n. elim n [
            | inl e ↦
                subst (λ z. rank o.operation_key ≤ rank z.operation_key) (sym e) (ground arith)
            | inr k ↦ low q k
          ],
        )
      ]

module _ (ops : List PlannedOperation) (acyclic : Acyclic ops) where
  -- While operations are pending, one of them is ready.
  some_ready :
      (results : Results) (p : PlannedOperation) (ps : List PlannedOperation)
      → Progress ops results (p ∷ ps)
      → (o : PlannedOperation) × Member o (ready_operations results (p ∷ ps))
  some_ready results p ps g =
      let (o, m, low) = least acyclic.rank p ps in
      let listed = g.listed o m in
      let ready = (all_iff (λ d. Dict.has d results) o.dependencies).1 (λ d n.
        let (q, k, e) = Member-map operation_key d ops (acyclic.known o d listed n) in
        elim (g.covered q k) [
          | inl h ↦ subst (λ z. Dict.has z results ≡ true) (sym e) h
          | inr waiting ↦ absurd (
              omega (
                arith,
                low q waiting,
                subst (λ z. acyclic.rank z < acyclic.rank o.operation_key) e
                    (acyclic.lower o d listed n),
              ))
        ]) in
      (
        o,
        (Member-sort operation_leb o (filter (is_ready results) (p ∷ ps))).1
            ((Member-filter (is_ready results) o (p ∷ ps)).1 (m, ready)),
      )

module _ {S : Type 0} (services : Services S) (context : ExecutionContext) where
  -- One pass of the loop, from its steps.
  run_waves-step :
      (fuel : ℕ) (p : PlannedOperation) (ps : List PlannedOperation) (results : Results)
      (s u v t : S) (o : PlannedOperation) (os : List PlannedOperation)
      (settled : Results × List PlannedOperation) (rs : List OperationExecutionResult)
      (x : Option Results)
      → ready_operations results (p ∷ ps) ≡ o ∷ os
      → settle services context (o ∷ os) results s ≡ (ok settled, u)
      → execute_wave services context settled.1 u ≡ (ok rs, v)
      → run_waves services context fuel (still_pending (o ∷ os) (p ∷ ps)) (update settled.0 rs) v
        ≡ (ok x, t)
      → run_waves services context (suc fuel) (p ∷ ps) results s ≡ (ok x, t)
  unfolding run_waves
  run_waves-step fuel p ps results s u v t o os settled rs x e f d k =
      rw (e, run_waves)
        (ap
            (λ z. after z (λ settled. execute_wave services context settled.1 >>= λ completed.
              run_waves services context fuel (still_pending (o ∷ os) (p ∷ ps))
                (update settled.0 completed)))
            f
          ∙ ap
              (λ z. after z (λ completed.
                run_waves services context fuel (still_pending (o ∷ os) (p ∷ ps))
                  (update settled.0 completed)))
              d
          ∙ k)

module _ {S : Type 0} (services : Services S) (context : ExecutionContext)
    (ops : List PlannedOperation) (Fresh : PlannedOperation → S → Type 0)
    (Open : OperationId → S → Type 0) (reliable : Reliable services context ops Fresh Open)
    (acyclic : Acyclic ops) where
  -- What is left after a pass is still fresh.
  left_fresh :
      (ready pending ex : List PlannedOperation) (s u v : S)
      → ((q : PlannedOperation) → Member q pending → Member q ops × Fresh q s)
      → Settled services context ops Fresh Open reliable ready s ex u
      → ((q : PlannedOperation)
          → Member q ops
          → Apart services context ops Fresh Open reliable ex q
          → Fresh q u
          → Fresh q v)
      → (q : PlannedOperation) → Member q (still_pending ready pending)
      → Fresh q v
  left_fresh ready pending ex s u v fresh settled waved q m =
      let is_left =
        λ (o : PlannedOperation). not (contains (map operation_key ready) o.operation_key) in
      let (k, out) = (Member-filter is_left q pending).0 m in
      let (n, f) = fresh q k in
      let apart : Apart services context ops Fresh Open reliable ready q =
        λ o l e. other_key ready q.operation_key o (ground arith) l (sym e) in
      waved q n (λ o l. apart o (settled.sub o l)) (settled.kept q n (inl apart) f)

  run_waves-Returns :
      (fuel : ℕ) (pending : List PlannedOperation) (results : Results) (s : S)
      → length pending ≤ fuel
      → Progress ops results pending
      → ((q : PlannedOperation) → Member q pending → Fresh q s)
      → (x : Results) × (t : S) × (run_waves services context fuel pending results s
          ≡ (ok (some x), t))
  unfolding run_waves
  run_waves-Returns fuel [] results s le g fresh = (results, s, refl)
  run_waves-Returns zero (p ∷ ps) results s le g fresh = absurd (ground arith)
  run_waves-Returns (suc fuel) (p ∷ ps) results s le g fresh =
      elim (Ready-cases (ready_operations results (p ∷ ps))) [
        | inl none_ready ↦
            let (o, m) = some_ready ops acyclic results p ps g in
            absurd (subst (Member o) none_ready m tt)
        | inr (o, os, e) ↦
            let ready = ready_operations results (p ∷ ps) in
            let listed : (q : PlannedOperation) → Member q (p ∷ ps) → Member q ops × Fresh q s =
              λ q m. (g.listed q m, fresh q m) in
            let distinct = ready-Distinct results (p ∷ ps) g.unique in
            let (settled, u, f, kept) =
              settle-Settled services context ops Fresh Open reliable (o ∷ os) results s
                (subst (λ z. Distinct (map operation_key z)) e distinct)
                (λ q m.
                  listed q (Member-ready results (p ∷ ps) q (subst (Member q) (sym e) m)).0) in
            let i =
              settle-IsSettled services context ops ready results s u settled.0 settled.1 g.settling
                (ready-Startable results (p ∷ ps) ops g) distinct
                (subst (λ z. settle services context z results s ≡ (ok settled, u)) (sym e) f) in
            let (rs, v, d, waved) =
              execute_wave-Advances services context ops Fresh Open reliable settled.1 u i.unique
                (λ q m.
                  let (n, h) =
                    listed q
                      (Member-ready results (p ∷ ps) q
                        (subst (Member q) (sym e) (kept.sub q m))).0 in
                  (n, kept.kept q n (inr m) h)) in
            let less = still_pending_shorter results (p ∷ ps) o os e in
            let (x, t, k) =
              run_waves-Returns fuel (still_pending (o ∷ os) (p ∷ ps)) (update settled.0 rs) v
                (omega arith)
                (subst (λ z. Progress ops (update settled.0 rs) (still_pending z (p ∷ ps))) e
                  (pass-Progress results (p ∷ ps) ops settled.0 settled.1 rs g i
                    (execute_wave-AllExecuted services context settled.1 u v rs d)))
                (left_fresh (o ∷ os) (p ∷ ps) settled.1 s u v listed kept waved) in
            (
              x,
              t,
              run_waves-step services context fuel p ps results s u v t o os settled rs (some x) e f
                  d k,
            )
      ]

known_dependencies :
    (ops os : List PlannedOperation)
    → Acyclic ops
    → ((o : PlannedOperation) → Member o os → Member o ops)
    → any (has_unknown (map operation_key ops)) os ≡ false
known_dependencies ops os acyclic sub =
    (any-false_iff (has_unknown (map operation_key ops)) os).1 (λ o m. ap not (
      (all_iff (λ d. contains (map operation_key ops) d) o.dependencies).1
        (λ d n. (contains_iff (map operation_key ops) d).1 (acyclic.known o d (sub o m) n))))

past_the_check :
    {S A : Type 0} (b : Bool) (fault : Fault) (m : Exec S A) (s : S)
    → b ≡ false
    → (if b then throw fault else m) s ≡ m s
past_the_check true fault m s h = ground arith
past_the_check false fault m s h = refl

-- If every dependency of the plan is one of its operations, of lower rank, the services are reliable
-- and every operation can be started at first, the executor returns results, whether the work of the
-- operations succeeds, fails or raises.
pub execute_operations-Returns :
    {S : Type 0} (services : Services S) (context : ExecutionContext)
    (Fresh : PlannedOperation → S → Type 0) (Open : OperationId → S → Type 0)
    → Reliable services context (pending_operations context.plan) Fresh Open
    → Acyclic (pending_operations context.plan)
    → (s : S) → ((o : PlannedOperation) → Member o (pending_operations context.plan) → Fresh o s)
    → (rs : List OperationExecutionResult) × (t : S) × (execute_operations services context s
        ≡ (ok (some rs), t))
unfolding execute_operations
execute_operations-Returns services context Fresh Open reliable acyclic s fresh =
    let pending = pending_operations context.plan in
    let (x, t, e) =
      run_waves-Returns services context pending Fresh Open reliable acyclic (length pending)
        pending [] s (omega arith) (start-Progress context.plan) fresh in
    (
      in_order x,
      t,
      past_the_check (any (has_unknown (map operation_key pending)) pending)
            Fault.unknown_dependency _ s (known_dependencies pending pending acyclic (λ o m. m))
          ∙ ap (λ z. after z (λ results. return (ordered results))) e,
    )
