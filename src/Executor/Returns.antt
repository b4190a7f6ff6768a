-- ===== src/Executor/Returns.antt =====
-- Reliable services and plans without cycles, for executor.py, and the calls of one wave.
use mathlib.Core.Path.{subst}
use efloud.Prelude.{
  ℕ, ◌<◌, String, true, false, List, [], ◌∷◌, map, ◌≡◌, ◌⊎◌, refl, sym, ap, ◌∙◌, arith, inl, inr,
}
use efloud.Prelude.{string_eq, contains, contains_iff, Distinct, Member, Member-map_of}
use efloud.Prelude.Dict
use efloud.Errors.{Result, ok}
use efloud.Json.{JsonObject}
use efloud.Models.{OperationId}
use efloud.Planning.{PlannedOperation, operation_key}
use efloud.Catalog.Runs.{operation_terminal}
use efloud.Executor.Store.{
  Exec, return, after, Services, RecordedStatus, Attempt, recorded, raised, interrupted,
}
use efloud.Executor.Operation.{
  ExecutionContext, OperationExecutionResult, start_operation, recorded_result, conclude,
  execute_operation, blocked_operation, blocked, blocked_details,
}
use efloud.Executor.Waves.{Results, failed_dependencies, settle, execute_wave}
use efloud.Executor.Steps.{List-cases}

-- What can be started in one state can be started in another, but for an operation with the key.
abbrev pub KeepsBut :
    {S : Type 0} → List PlannedOperation → (PlannedOperation → S → Type 0) → String → S → S → Type 0
KeepsBut ops Fresh key s t =
    (q : PlannedOperation) → Member q ops → ¬ (q.operation_key ≡ key) → Fresh q s → Fresh q t

abbrev pub Keeps :
    {S : Type 0} → List PlannedOperation → (PlannedOperation → S → Type 0) → S → S → Type 0
Keeps ops Fresh s t = (q : PlannedOperation) → Member q ops → Fresh q s → Fresh q t

-- An operation of the plan that is fresh is started and then open, and its start takes from no other
-- operation that it is fresh. The work on an open operation is not cancelled and leaves it open; an
-- open operation is finished with any terminal status. Neither takes from an operation that it is
-- fresh. An adapter or a task may fail or raise.
pub record Reliable {S : Type 0} (services : Services S) (context : ExecutionContext)
    (ops : List PlannedOperation) (Fresh : PlannedOperation → S → Type 0)
    (Open : OperationId → S → Type 0) : Type 0 where
  pub starts :
      (o : PlannedOperation) (s : S)
      → Member o ops
      → Fresh o s
      → (id : OperationId) × (t : S) × (start_operation services context o s ≡ (ok id, t))
        × Open id t
        × KeepsBut ops Fresh o.operation_key s t
  pub works :
      (o : PlannedOperation) (id : OperationId) (s : S)
      → Member o ops
      → Open id s
      → ((recorded_result services context o id s).0 ≡ interrupted → ⊥)
        × Open id (recorded_result services context o id s).1
        × Keeps ops Fresh s (recorded_result services context o id s).1
  pub finishes :
      (id : OperationId) (status : String) (details : JsonObject) (s : S)
      → contains operation_terminal status ≡ true
      → Open id s
      → (t : S) × (services.finish_operation id status details s ≡ (ok tt, t)) × Keeps ops Fresh s t

-- Every dependency is an operation of lower rank.
pub record Acyclic (ops : List PlannedOperation) : Type 0 where
  pub rank : String → ℕ
  pub lower :
      (o : PlannedOperation) (d : String)
      → Member o ops
      → Member d o.dependencies
      → rank d < rank o.operation_key
  pub known :
      (o : PlannedOperation) (d : String)
      → Member o ops
      → Member d o.dependencies
      → Member d (map operation_key ops)

pub other_key :
    (os : List PlannedOperation) (key : String) (o : PlannedOperation)
    → contains (map operation_key os) key ≡ false
    → Member o os
    → ¬ (o.operation_key ≡ key)
other_key os key o h m e =
    let k = subst (λ z. Member z (map operation_key os)) e (Member-map_of operation_key o os m) in
    ground (arith, (contains_iff (map operation_key os) key).1 k)

module _ {S : Type 0} (services : Services S) (context : ExecutionContext)
    (ops : List PlannedOperation) (Fresh : PlannedOperation → S → Type 0)
    (Open : OperationId → S → Type 0) (reliable : Reliable services context ops Fresh Open) where
  after-eq :
      {A B : Type 0} (p : Result A × S) (f : A → Exec S B) {a : A} {t : S} {r : Result B × S}
      → p ≡ (ok a, t)
      → f a t ≡ r
      → after p f ≡ r
  after-eq p f e d = ap (λ z. after z f) e ∙ d

  -- The call returns, and takes from no operation with another key that it is fresh.
  abbrev Advances : {A : Type 0} → String → S → Result A × S → Type 0
  Advances {A} key s p = (a : A) × (t : S) × (p ≡ (ok a, t)) × KeepsBut ops Fresh key s t

  finished :
      {A : Type 0} (key : String) (id : OperationId) (status : String) (details : JsonObject)
      (s t : S) (f : Unit {0} → Exec S A) (a : A)
      → contains operation_terminal status ≡ true
      → Open id t
      → KeepsBut ops Fresh key s t
      → ((u : S) → f tt u ≡ (ok a, u))
      → Advances key s (after (services.finish_operation id status details t) f)
  finished key id status details s t f a terminal going kept g =
      let (u, e, k) = reliable.finishes id status details t terminal going in
      (a, u, ap (λ z. after z f) e ∙ g u, λ q m other h. k q m (kept q m other h))

  conclude-Advances :
      (o : PlannedOperation) (id : OperationId) (a : Attempt) (s t : S)
      → ((a ≡ interrupted) → ⊥)
      → Open id t
      → KeepsBut ops Fresh o.operation_key s t
      → Advances o.operation_key s (conclude services context o id a t)
  unfolding conclude
  conclude-Advances o id (recorded RecordedStatus.succeeded ids details) s t steady going kept =
      finished o.operation_key id "succeeded" details s t _ _ refl going kept (λ u. refl)
  conclude-Advances o id (recorded RecordedStatus.failed ids details) s t steady going kept =
      finished o.operation_key id "failed" details s t _ _ refl going kept (λ u. refl)
  conclude-Advances o id (raised text) s t steady going kept =
      finished o.operation_key id "failed" _ s t _ _ refl going kept (λ u. refl)
  conclude-Advances o id interrupted s t steady going kept = absurd (steady refl)

  execute_operation-Advances :
      (o : PlannedOperation) (s : S)
      → Member o ops
      → Fresh o s
      → Advances o.operation_key s (execute_operation services context o s)
  unfolding execute_operation
  execute_operation-Advances o s m h =
      let (id, t, e, going, kept) = reliable.starts o s m h in
      let (steady, still, keeps) = reliable.works o id t m going in
      let r = recorded_result services context o id t in
      let (a, u, d, k) =
        conclude-Advances o id r.0 s r.1 steady still
          (λ q n other f. keeps q n (kept q n other f)) in
      (a, u, after-eq (start_operation services context o s) _ e d, k)

  blocked_operation-Advances :
      (o : PlannedOperation) (ds : List String) (s : S)
      → Member o ops
      → Fresh o s
      → Advances o.operation_key s (blocked_operation services context o ds s)
  unfolding blocked_operation
  blocked_operation-Advances o ds s m h =
      let (id, t, e, going, kept) = reliable.starts o s m h in
      let (a, u, d, k) =
        finished o.operation_key id "cancelled" (blocked_details ds) s t
          (λ done. return (record {
            operation_key = o.operation_key;
            status = blocked;
            observation_ids = [];
            details = blocked_details ds;
          }))
          _ refl going kept (λ u. refl) in
      (a, u, after-eq (start_operation services context o s) _ e d, k)

  abbrev AllFresh : List PlannedOperation → S → Type 0
  AllFresh os s = (o : PlannedOperation) → Member o os → Member o ops × Fresh o s

  abbrev pub Apart : List PlannedOperation → PlannedOperation → Type 0
  Apart os q = (o : PlannedOperation) → Member o os → ¬ (q.operation_key ≡ o.operation_key)

  -- After an operation, the others of a list with distinct keys are still fresh.
  rest_fresh :
      (o : PlannedOperation) (os : List PlannedOperation) (s t : S)
      → Distinct (map operation_key (o ∷ os))
      → AllFresh (o ∷ os) s
      → KeepsBut ops Fresh o.operation_key s t
      → AllFresh os t
  rest_fresh o os s t u fresh kept p m =
      let (n, f) = fresh p (inr m) in (n, kept p n (other_key os o.operation_key p u.0 m) f)

  pub execute_wave-Advances :
      (os : List PlannedOperation) (s : S)
      → Distinct (map operation_key os)
      → AllFresh os s
      → (rs : List OperationExecutionResult) × (t : S) × (execute_wave services context os s
          ≡ (ok rs, t))
        × ((q : PlannedOperation) → Member q ops → Apart os q → Fresh q s → Fresh q t)
  unfolding execute_wave
  execute_wave-Advances [] s u fresh = ([], s, refl, λ q m apart f. f)
  execute_wave-Advances (o ∷ os) s u fresh =
      let (n, f) = fresh o (inl refl) in
      let (r, t, e, kept) = execute_operation-Advances o s n f in
      let (rs, v, d, k) = execute_wave-Advances os t u.1 (rest_fresh o os s t u fresh kept) in
      (
        r ∷ rs,
        v,
        after-eq (execute_operation services context o s) _ e
            (after-eq (execute_wave services context os t) _ d refl),
        λ q m apart g. k q m (λ p l. apart p (inr l)) (kept q m (apart o (inl refl)) g),
      )

  -- What settling leaves: some of the operations, and they and those of other keys are fresh.
  pub record Settled (os : List PlannedOperation) (s : S) (ex : List PlannedOperation) (t : S)
      : Type 0 where
    pub sub : (q : PlannedOperation) → Member q ex → Member q os
    pub kept :
        (q : PlannedOperation) → Member q ops → Apart os q ⊎ Member q ex → Fresh q s → Fresh q t

  pub settle-Settled :
      (os : List PlannedOperation) (results : Results) (s : S)
      → Distinct (map operation_key os)
      → AllFresh os s
      → (x : Results × List PlannedOperation) × (t : S) × (settle services context os results s
          ≡ (ok x, t))
        × Settled os s x.1 t
  unfolding settle
  settle-Settled [] results s u fresh =
      ((results, []), s, refl, record { sub = λ q m. absurd (m tt); kept = λ q m c f. f })
  settle-Settled (o ∷ os) results s u fresh = elim (List-cases (failed_dependencies results o)) [
    | inl e ↦
        let (x, t, d, i) = settle-Settled os results s u.1 (λ p m. fresh p (inr m)) in
        (
          (x.0, o ∷ x.1),
          t,
          rw (e, settle) (after-eq (settle services context os results s) _ d refl),
          record {
            sub = λ q m. elim m [ inl k ↦ inl k | inr k ↦ inr (i.sub q k) ];
            kept = λ q m c f.
                i.kept q m
                  (elim c [
                    | inl apart ↦ inl (λ p l. apart p (inr l))
                    | inr (inl k) ↦
                        inl (λ p l a.
                          other_key os o.operation_key p u.0 l (sym a ∙ ap operation_key k))
                    | inr (inr k) ↦ inr k
                  ])
                  f;
          },
        )
    | inr (d, ds, e) ↦
        let (n, g) = fresh o (inl refl) in
        let (r, t, b, kept) = blocked_operation-Advances o (d ∷ ds) s n g in
        let (x, v, c, i) =
          settle-Settled os (Dict.insert o.operation_key r results) t u.1
            (rest_fresh o os s t u fresh kept) in
        (
          x,
          v,
          rw (e, settle) (after-eq (blocked_operation services context o (d ∷ ds) s) _ b c),
          record {
            sub = λ q m. inr (i.sub q m);
            kept = λ q m l f. elim l [
              | inl apart ↦
                  i.kept q m (inl (λ p j. apart p (inr j))) (kept q m (apart o (inl refl)) f)
              | inr k ↦
                  i.kept q m (inr k) (kept q m (other_key os o.operation_key q u.0 (i.sub q k)) f)
            ];
          },
        )
  ]
