-- ===== src/Tests/Termination.antt =====
-- The sample plan is free of cycles, and a repository is reliable for it.
use mathlib.Core.Path.{subst}
use efloud.Prelude.{
  ℕ, ◌<◌, String, string_eq, ◌==◌, if◌then◌else◌, List, [], ◌∷◌, none, some, ◌≡◌, refl, sym, arith,
  inl, inr, map, Member,
}
use efloud.Prelude.Dict
use efloud.Prelude.Keyed.{index, index_onto}
use efloud.Errors.{ok}
use efloud.Models.{SourceId, producer_ref, partition_colon}
use efloud.Planning.{PlannedOperation, operation_key}
use efloud.Executor.Operation.{OperationExecutionResult, Source, source_by_id, operation_kind}
use efloud.Executor.Waves.{pending_operations, execute_operations}
use efloud.Executor.Returns.{Reliable, Acyclic}
use efloud.Repository.State.{RepositoryState}
use efloud.Repository.Fresh.{IsOpen, identifier, IsFresh, IsPlannedWell}
use efloud.Repository.Reliability.{repository-Reliable}
use efloud.Payloads.{operation_id_for}
use efloud.Tests.Sample.{render}
use efloud.Tests.Services.{work, calm, going, held, in_repository, differ}
use efloud.Executor.Liveness.{execute_operations-Returns}
use efloud.Tests.Executions.{task, plan, context}

abbrev tasks : List PlannedOperation
tasks = task "b" ("a" ∷ []) ∷ task "c" [] ∷ task "a" [] ∷ []

pending_eq : pending_operations plan ≡ tasks
unfolding pending_operations index index_onto Dict.insert
pending_eq = refl

-- What holds of the three tasks holds of the operations that are pending.
each_task :
    (P : PlannedOperation → Type 0)
    → P (task "b" ("a" ∷ []))
    → P (task "c" [])
    → P (task "a" [])
    → (o : PlannedOperation) → Member o (pending_operations plan)
    → P o
each_task P b c a o m = elim (subst (Member o) pending_eq m) [
  | inl e ↦ subst P (sym e) b
  | inr (inl e) ↦ subst P (sym e) c
  | inr (inr (inl e)) ↦ subst P (sym e) a
  | inr (inr (inr k)) ↦ absurd (k tt)
]

configured :
    (o : PlannedOperation) (id : SourceId)
    → Member o (pending_operations plan)
    → o.source_id ≡ some id
    → (c : Source) × (source_by_id context.sources id ≡ some c)
configured o id m =
    each_task
      (λ z. z.source_id ≡ some id → (c : Source) × (source_by_id context.sources id ≡ some c))
      (λ h. cc) (λ h. cc) (λ h. cc) o m

produced :
    (o : PlannedOperation)
    → Member o (pending_operations plan)
    → producer_ref o.producer.producer_id o.producer.version ≡ ok o.producer
unfolding producer_ref partition_colon
produced o m =
    each_task (λ z. producer_ref z.producer.producer_id z.producer.version ≡ ok z.producer) refl
      refl refl o m

abbrev Apart : PlannedOperation → PlannedOperation → Type 0
Apart o q =
    ¬ (q.operation_key ≡ o.operation_key)
    → ¬ (identifier render context q ≡ identifier render context o)

apart :
    (o q : PlannedOperation)
    → Member o (pending_operations plan)
    → Member q (pending_operations plan)
    → Apart o q
unfolding operation_id_for operation_kind render
apart o q m n =
    each_task (λ z. Apart z q)
      (each_task (λ z. Apart (task "b" ("a" ∷ [])) z) (λ d h. d refl) (λ d. differ _ _ refl)
        (λ d. differ _ _ refl) q n)
      (each_task (λ z. Apart (task "c" []) z) (λ d. differ _ _ refl) (λ d h. d refl)
        (λ d. differ _ _ refl) q n)
      (each_task (λ z. Apart (task "a" []) z) (λ d. differ _ _ refl) (λ d. differ _ _ refl)
        (λ d h. d refl) q n)
      o m

well : IsPlannedWell render context (pending_operations plan)
well = record { configured = configured; produced = produced; apart = apart }

-- The repository that the executor is given.
reliable : Reliable in_repository context (pending_operations plan) (IsFresh render context) IsOpen
reliable =
    repository-Reliable render (λ kind. kind) (λ s. 5) work calm context (pending_operations plan)
      well

not_started : (z : PlannedOperation) → z.source_id ≡ none → IsFresh render context z held
unfolding Dict.lookup
not_started z h = record {
  active = refl;
  run = going;
  found = refl;
  running = refl;
  registered = λ id e. cc;
  unstarted = refl;
}

fresh : (o : PlannedOperation) → Member o (pending_operations plan) → IsFresh render context o held
fresh o m =
    each_task (λ z. IsFresh render context z held) (not_started (task "b" ("a" ∷ [])) refl)
      (not_started (task "c" []) refl) (not_started (task "a" []) refl) o m

abbrev rank : String → ℕ
rank key = if key == "b" then 1 else 0

acyclic : Acyclic (pending_operations plan)
acyclic = record {
  rank = rank;
  lower = λ o d m.
      each_task (λ z. Member d z.dependencies → rank d < rank z.operation_key)
        (λ n. elim n [
          | inl e ↦ subst (λ k. rank k < 1) (sym e) (omega arith)
          | inr k ↦ absurd (k tt)
        ])
        (λ n. absurd (n tt)) (λ n. absurd (n tt)) o m;
  known = λ o d m.
      each_task
        (λ z. Member d z.dependencies → Member d (map operation_key (pending_operations plan)))
        (λ n. elim n [
          | inl e ↦
              subst (λ k. Member k (map operation_key (pending_operations plan))) (sym e)
                (subst (λ os. Member "a" (map operation_key os)) (sym pending_eq)
                  (inr (inr (inl refl))))
          | inr k ↦ absurd (k tt)
        ])
        (λ n. absurd (n tt)) (λ n. absurd (n tt)) o m;
}

-- The executor on the repository: one task fails, and what needs it is blocked.
execute_operations-Returns_example :
    (rs : List OperationExecutionResult) × (t : RepositoryState (List String)) × (execute_operations
        in_repository context held
      ≡ (ok (some rs), t))
execute_operations-Returns_example =
    execute_operations-Returns in_repository context (IsFresh render context) IsOpen reliable
      acyclic held fresh

repository-Reliable_example :
    Reliable in_repository context (pending_operations plan) (IsFresh render context) IsOpen
repository-Reliable_example =
    repository-Reliable render (λ kind. kind) (λ s. 5) work calm context (pending_operations plan)
      well
