-- ===== src/Planner/Unknown.antt =====
-- Plans with an operation that depends on a source without one: the executor refuses them.
use Prim.Native.Char.{code}
use Prim.Native.String.{String}
use mathlib.Core.Path.{subst}
use mathlib.Core.Option.{some-injective}
use text.Mathlib.TextLemmas.{append_cancel_left, cons-append}
use efloud.Prelude.{
  ℕ, Bool, true, false, List, Option, map, ◌≡◌, refl, sym, ap, ◌∙◌, arith, inl, inr,
}
use efloud.Prelude.{
  if◌then◌else◌, if-true, if-false, string_eq, any, any-false_iff, all_iff, contains, contains_iff,
  Distinct, Member, Member-map, Member-map_of, Bool-cases,
}
use efloud.Prelude.Sort.{Member-sort}
use efloud.Prelude.Keyed.{index, contains-map-index, lookup-index, Member-values-index}
use efloud.Prelude.Dict.{lookup}
use efloud.Errors.{ok, raise, Fault, ok_injective}
use efloud.Json.{Json}
use efloud.Models.{SourceId, SourceSnapshot}
use efloud.Sources.{Source, source_id}
use efloud.Adapters.{AdapterRegistry}
use efloud.Planning.{SyncRequest, PlanningDecision, PlannedOperation, SyncPlan, operation_key}
use efloud.Executor.Store.{Exec, Services, throw}
use efloud.Executor.Operation.{ExecutionContext}
use efloud.Executor.Waves.{pending_operations, has_unknown, execute_operations}
use efloud.Planner.{
  CollectionDefinition, DerivedTask, SyncPolicy, source_key, derived_key, requested_tasks, task_leb,
  plan,
}
use efloud.Planner.Dependencies.{IsDerivedOperation, source_plan-IsSourcePlan}
use efloud.Planner.Planned.{IsPlanned, plan-IsPlanned, is_requested}

abbrev pub task_name : DerivedTask → String
task_name t = t.name

-- Elements with distinct keys are told apart by them.
same_of_key :
    {A : Type 0} (f : A → String) (xs : List A) (a b : A)
    → Distinct (map f xs)
    → Member a xs
    → Member b xs
    → f a ≡ f b
    → a ≡ b
same_of_key f xs a b u m n e =
    some-injective _ _
      (sym (lookup-index f a xs u m) ∙ ap (λ k. lookup k (index f xs)) e ∙ lookup-index f b xs u n)

pub derived_key_injective : (a b : String) → derived_key a ≡ derived_key b → a ≡ b
derived_key_injective a b h = append_cancel_left "derived:" a b h

pub source_key_injective : (a b : String) → source_key a ≡ source_key b → a ≡ b
source_key_injective a b h = append_cancel_left "source:" a b h

abbrev first_code : String → ℕ
first_code String.[] = 0
first_code (String.◌∷◌ c s) = code c

-- The two kinds of keys begin differently.
pub source-derived : (a b : String) → ¬ (source_key a ≡ derived_key b)
source-derived a b h = absurd (
    omega
      (arith, ap first_code (sym (cons-append "s" "ource:" a) ∙ h ∙ cons-append "d" "erived:" b)))

pub Member-pending :
    (p : SyncPlan) (o : PlannedOperation) → Member o (pending_operations p) → Member o p.operations
unfolding pending_operations
Member-pending p o m = Member-values-index operation_key o p.operations m

pub pending-keys :
    (p : SyncPlan) (d : String)
    → contains (map operation_key (pending_operations p)) d
      ≡ contains (map operation_key p.operations) d
unfolding pending_operations
pending-keys p d = contains-map-index operation_key d p.operations

requested-Distinct :
    (request : SyncRequest) (tasks : List DerivedTask) (a b : DerivedTask)
    → Distinct (map task_name tasks)
    → Member a (requested_tasks request tasks)
    → Member b (requested_tasks request tasks)
    → task_name a ≡ task_name b
    → a ≡ b
requested-Distinct request tasks a b u m n e = elim (Bool-cases request.include_derived) [
  | inl i ↦
      same_of_key task_name tasks a b u
        ((Member-sort task_leb a tasks).0 (subst (Member a) (if-true _ _ _ i) m))
        ((Member-sort task_leb b tasks).0 (subst (Member b) (if-true _ _ _ i) n)) e
  | inr i ↦ absurd (subst (Member a) (if-false _ _ _ i) m tt)
]

stopped_by_check :
    {S A : Type 0} (b : Bool) (fault : Fault) (m : Exec S A) (s : S)
    → b ≡ true
    → (if b then throw fault else m) s ≡ (raise fault, s)
stopped_by_check true fault m s h = refl
stopped_by_check false fault m s h = cc

-- An operation that depends on the key of no operation stops the executor before it starts any.
execute_operations-unknown :
    {S : Type 0} (services : Services S) (context : ExecutionContext) (o : PlannedOperation)
    (d : String) (s : S)
    → Member o (pending_operations context.plan)
    → Member d o.dependencies
    → contains (map operation_key context.plan.operations) d ≡ false
    → execute_operations services context s ≡ (raise Fault.unknown_dependency, s)
unfolding execute_operations
execute_operations-unknown services context o d s m n h =
    let pending = pending_operations context.plan in
    let keys = map operation_key pending in
    stopped_by_check (any (has_unknown keys) pending) Fault.unknown_dependency _ s
      (elim (Bool-cases (any (has_unknown keys) pending)) [
        | inl e ↦ e
        | inr e ↦
            let fine = (any-false_iff (has_unknown keys) pending).0 e o m in
            let there = (all_iff (contains keys) o.dependencies).0 (ground arith) d n in
            ground (arith, pending-keys context.plan d)
      ])

module _ (digest : Json → String) (latest_snapshot : SourceId → Option SourceSnapshot)
    (adapters : AdapterRegistry) (policy : SyncPolicy) (collections : List CollectionDefinition)
    (request : SyncRequest) (sources : List Source) (tasks : List DerivedTask) where
  -- A task that is planned has an operation among those that are pending.
  pending_task :
      (p : SyncPlan) (selected : List String) (t : DerivedTask)
      → IsPlanned digest latest_snapshot adapters policy collections request sources tasks selected
          p
      → Distinct (map task_name tasks)
      → Member t (requested_tasks request tasks)
      → (o : PlannedOperation) × Member o (pending_operations p) × IsDerivedOperation selected t o
  pending_task p selected t planned u m =
      let (x, n, i) = planned.of_task t m in
      let found = (contains_iff (map operation_key (pending_operations p)) (operation_key x)).0 (
        pending-keys p (operation_key x)
        ∙ (contains_iff (map operation_key p.operations) (operation_key x)).1
            (Member-map_of operation_key x p.operations n)) in
      let (o, k, e) = Member-map operation_key (operation_key x) (pending_operations p) found in
      elim (planned.of_operation o (Member-pending p o k)) [
        | inl (s, q, a, b, c) ↦
            let j =
              (source_plan-IsSourcePlan latest_snapshot adapters policy collections request selected
                  s q b).operation
                o c in
            absurd (source-derived (source_id s) t.name (sym j.key ∙ sym e ∙ i.key))
        | inr (r, a, j) ↦
            let same =
              requested-Distinct request tasks r t u a m
                (derived_key_injective r.name t.name (sym j.key ∙ sym e ∙ i.key)) in
            (o, k, subst (λ z. IsDerivedOperation selected z o) same j)
      ]

  -- A source that is not decided to be acquired has no operation.
  no_key_of_unselected :
      (p : SyncPlan) (selected : List String) (id : String)
      → IsPlanned digest latest_snapshot adapters policy collections request sources tasks selected
          p
      → ((d : PlanningDecision) → Member d p.decisions → d.source_id ≡ id → d.selected ≡ false)
      → (o : PlannedOperation) → Member o p.operations
      → ¬ (o.operation_key ≡ source_key id)
  no_key_of_unselected p selected id planned out o m e = elim (planned.of_operation o m) [
    | inl (s, q, a, b, c) ↦
        let j =
          source_plan-IsSourcePlan latest_snapshot adapters policy collections request selected s q
            b in
        let (q', b', n, f) = planned.of_source s a in
        let same = ok_injective (sym b' ∙ b) in
        let there = subst (λ z. Member z.0 p.decisions) same n in
        let named =
          j.named ∙ source_key_injective (source_id s) id (sym (j.operation o c).key ∙ e) in
        absurd (ground (arith, out q.0 there named, j.acquired, c, rw c at j.acquired))
    | inr (t, a, j) ↦ absurd (source-derived id t.name (sym e ∙ j.key))
  ]

  -- If a planned task has an input that is requested, and no decision of the plan acquires that
  -- source, `_execute_operations` raises the fault of an unknown dependency, and has changed nothing.
  pub plan-unknown_dependency :
      {S : Type 0} (services : Services S) (context : ExecutionContext) (t : DerivedTask)
      (id : String) (s : S)
      → plan digest latest_snapshot adapters policy collections request sources tasks
        ≡ ok context.plan
      → Distinct (map task_name tasks)
      → Member t (requested_tasks request tasks)
      → Member id t.input_source_ids
      → is_requested sources request id ≡ true
      → ((d : PlanningDecision)
          → Member d context.plan.decisions
          → d.source_id ≡ id
          → d.selected ≡ false)
      → execute_operations services context s ≡ (raise Fault.unknown_dependency, s)
  plan-unknown_dependency services context t id s h u m n r out =
      let p = context.plan in
      let (selected, planned) =
        plan-IsPlanned digest latest_snapshot adapters policy collections request sources tasks p
          h in
      let (o, k, i) = pending_task p selected t planned u m in
      execute_operations-unknown services context o (source_key id) s k
        ((i.inputs (source_key id)).1 (id, refl, n, planned.selection.requested id ∙ r))
        (elim (Bool-cases (contains (map operation_key p.operations) (source_key id))) [
          | inr e ↦ e
          | inl e ↦
              let (x, j, f) =
                Member-map operation_key (source_key id) p.operations
                  ((contains_iff (map operation_key p.operations) (source_key id)).0 e) in
              absurd (no_key_of_unselected p selected id planned out x j (sym f))
        ])
