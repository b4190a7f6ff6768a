-- ===== src/Planner/Executable.antt =====
-- Plans in which every requested source is acquired: the executor can run them to the end.
use mathlib.Core.Path.{subst}
use efloud.Prelude.{
  ℕ, ◌<◌, String, true, false, List, Option, some, map, ◌≡◌, sym, ap, ◌∙◌, arith, inl, inr,
}
use efloud.Prelude.{
  if◌then◌else◌, if-true, if-false, string_eq, filter, contains, contains_iff, Member, Member-map,
  Member-map_of, Member-filter, Bool-cases, Option-cases,
}
use efloud.Prelude.Sort.{Member-sort}
use efloud.Errors.{ok}
use efloud.Json.{Json}
use efloud.Models.{SourceId, OperationId, SourceSnapshot}
use efloud.Sources.{Source, source_id, is_collection}
use efloud.Adapters.{AdapterRegistry}
use efloud.Planning.{SyncRequest, PlanningDecision, PlannedOperation, SyncPlan, operation_key}
use efloud.Executor.Store.{Services}
use efloud.Executor.Operation.{ExecutionContext, OperationExecutionResult}
use efloud.Executor.Waves.{pending_operations, execute_operations}
use efloud.Executor.Returns.{Reliable, Acyclic}
use efloud.Executor.Liveness.{execute_operations-Returns}
use efloud.Planner.{
  CollectionDefinition, DerivedTask, SyncPolicy, collection_by_source, source_key, derived_key,
  requested_tasks, task_leb, plan,
}
use efloud.Planner.Dependencies.{source_plan-IsSourcePlan}
use efloud.Planner.Planned.{IsPlanned, plan-IsPlanned, is_requested}
use efloud.Planner.Unknown.{
  task_name, source_key_injective, source-derived, Member-pending, pending-keys,
}

-- No input of a collection is a collection.
abbrev pub IsFlat : List CollectionDefinition → List Source → Type 0
IsFlat collections sources =
    (s r : Source) (c : CollectionDefinition)
    → Member s sources
    → is_collection s ≡ true
    → collection_by_source collections (source_id s) ≡ some c
    → Member r sources
    → Member (source_id r) c.input_source_ids
    → is_collection r ≡ false

-- Every requested source is decided to be acquired.
abbrev pub IsAcquired : List Source → SyncRequest → SyncPlan → Type 0
IsAcquired sources request p =
    (d : PlanningDecision)
    → Member d p.decisions
    → is_requested sources request d.source_id ≡ true
    → d.selected ≡ true

-- Sources come first, then collections, then derived tasks.
abbrev collection_keys : List Source → List String
collection_keys sources = map (λ s. source_key (source_id s)) (filter is_collection sources)

abbrev task_keys : List DerivedTask → List String
task_keys tasks = map (λ t. derived_key (task_name t)) tasks

abbrev stage : List Source → List DerivedTask → String → ℕ
stage sources tasks key =
    if contains (task_keys tasks) key
    then 2
    else if contains (collection_keys sources) key
    then 1
    else 0

stage_of_source :
    (sources : List Source) (tasks : List DerivedTask) (id : String)
    → stage sources tasks (source_key id) < 2
stage_of_source sources tasks id = elim (Bool-cases (contains (task_keys tasks) (source_key id))) [
  | inl e ↦
      let (t, m, f) =
        Member-map (λ t. derived_key (task_name t)) (source_key id) tasks
          ((contains_iff (task_keys tasks) (source_key id)).0 e) in
      absurd (source-derived id t.name f)
  | inr e ↦ ground arith
]

stage_of_collection :
    (sources : List Source) (tasks : List DerivedTask) (s : Source)
    → Member s sources
    → is_collection s ≡ true
    → 0 < stage sources tasks (source_key (source_id s))
stage_of_collection sources tasks s m c =
    let k = (contains_iff (collection_keys sources) (source_key (source_id s))).1 (
      Member-map_of (λ s. source_key (source_id s)) s (filter is_collection sources)
        ((Member-filter is_collection s sources).1 (m, c))) in
    ground arith

-- A source that no collection of that name declares is of the first stage.
stage_of_input :
    (sources : List Source) (tasks : List DerivedTask) (id : String)
    → ((r : Source) → Member r sources → source_id r ≡ id → is_collection r ≡ false)
    → stage sources tasks (source_key id) ≡ 0
stage_of_input sources tasks id plain =
    elim (Bool-cases (contains (collection_keys sources) (source_key id))) [
      | inl e ↦
          let (r, m, f) =
            Member-map (λ s. source_key (source_id s)) (source_key id)
              (filter is_collection sources)
              ((contains_iff (collection_keys sources) (source_key id)).0 e) in
          let (n, c) = (Member-filter is_collection r sources).0 m in
          absurd (ground (arith, plain r n (source_key_injective (source_id r) id (sym f))))
      | inr e ↦ ground (arith, stage_of_source sources tasks id)
    ]

requested_task :
    (request : SyncRequest) (tasks : List DerivedTask) (t : DerivedTask)
    → Member t (requested_tasks request tasks)
    → Member t tasks
requested_task request tasks t m = elim (Bool-cases request.include_derived) [
  | inl i ↦ (Member-sort task_leb t tasks).0 (subst (Member t) (if-true _ _ _ i) m)
  | inr i ↦ absurd (subst (Member t) (if-false _ _ _ i) m tt)
]

stage_of_task :
    (sources : List Source) (tasks : List DerivedTask) (t : DerivedTask)
    → Member t tasks
    → stage sources tasks (derived_key t.name) ≡ 2
stage_of_task sources tasks t m = if-true _ _ _ (
    (contains_iff (task_keys tasks) (derived_key t.name)).1
      (Member-map_of (λ t. derived_key (task_name t)) t tasks m))

module _ (digest : Json → String) (latest_snapshot : SourceId → Option SourceSnapshot)
    (adapters : AdapterRegistry) (policy : SyncPolicy) (collections : List CollectionDefinition)
    (request : SyncRequest) (sources : List Source) (tasks : List DerivedTask) where
  -- The key of a selected source is that of an operation, if requested sources are acquired.
  selected_key :
      (p : SyncPlan) (selected : List String) (id : String)
      → IsPlanned digest latest_snapshot adapters policy collections request sources tasks selected
          p
      → IsAcquired sources request p
      → contains selected id ≡ true
      → Member (source_key id) (map operation_key (pending_operations p))
  selected_key p selected id planned acquired h =
      let (s, m, e) = Member-map source_id id sources (planned.selection.configured id h) in
      let (q, f, n, g) = planned.of_source s m in
      let i =
        source_plan-IsSourcePlan latest_snapshot adapters policy collections request selected s q
          f in
      let named = i.named ∙ sym e in
      elim (Option-cases q.1) [
        | inl none_there ↦
            let on = acquired q.0 n (rw named (sym (planned.selection.requested id) ∙ h)) in
            absurd (ground (arith, i.acquired, rw none_there at i.acquired))
        | inr (o, oe) ↦
            let k = Member-map_of operation_key o p.operations (g o oe) in
            let key = (i.operation o oe).key ∙ ap source_key (sym e) in
            (contains_iff (map operation_key (pending_operations p)) (source_key id)).0 (
              pending-keys p (source_key id)
              ∙ (contains_iff (map operation_key p.operations) (source_key id)).1
                  (subst (λ z. Member z (map operation_key p.operations)) key k))
      ]

  plan-Acyclic :
      (p : SyncPlan) (selected : List String)
      → IsPlanned digest latest_snapshot adapters policy collections request sources tasks selected
          p
      → IsFlat collections sources
      → IsAcquired sources request p
      → Acyclic (pending_operations p)
  plan-Acyclic p selected planned flat acquired = record {
    rank = stage sources tasks;
    lower = λ o d m n. elim (planned.of_operation o (Member-pending p o m)) [
      | inl (s, q, a, b, c) ↦
          let i =
            (source_plan-IsSourcePlan latest_snapshot adapters policy collections request selected s
                q b).operation
              o c in
          let (def, col, found, (id, e, k, l)) = i.inputs d n in
          let low = stage_of_input sources tasks id (λ r x y.
            flat s r def a col found x (subst (λ z. Member z def.input_source_ids) (sym y) k)) in
          let high = stage_of_collection sources tasks s a col in
          omega (arith, ap (stage sources tasks) e, ap (stage sources tasks) i.key, low, high)
      | inr (t, a, j) ↦
          let (id, e, k, l) = (j.inputs d).0 n in
          let low = stage_of_source sources tasks id in
          let high = stage_of_task sources tasks t (requested_task request tasks t a) in
          omega (arith, ap (stage sources tasks) e, ap (stage sources tasks) j.key, low, high)
    ];
    known = λ o d m n. elim (planned.of_operation o (Member-pending p o m)) [
      | inl (s, q, a, b, c) ↦
          let i =
            (source_plan-IsSourcePlan latest_snapshot adapters policy collections request selected s
                q b).operation
              o c in
          let (def, col, found, (id, e, k, l)) = i.inputs d n in
          subst (λ z. Member z (map operation_key (pending_operations p))) (sym e)
            (selected_key p selected id planned acquired l)
      | inr (t, a, j) ↦
          let (id, e, k, l) = (j.inputs d).0 n in
          subst (λ z. Member z (map operation_key (pending_operations p))) (sym e)
            (selected_key p selected id planned acquired l)
    ];
  }

  -- If the plan acquires every requested source, no input of a collection is a collection, the
  -- services are reliable and every operation can be started at first, the executor returns results
  -- for the plan.
  pub plan-Executes :
      {S : Type 0} (services : Services S) (context : ExecutionContext)
      (Fresh : PlannedOperation → S → Type 0) (Open : OperationId → S → Type 0)
      → plan digest latest_snapshot adapters policy collections request sources tasks
        ≡ ok context.plan
      → IsFlat collections sources
      → IsAcquired sources request context.plan
      → Reliable services context (pending_operations context.plan) Fresh Open
      → (s : S) → ((o : PlannedOperation) → Member o (pending_operations context.plan) → Fresh o s)
      → (rs : List OperationExecutionResult) × (t : S) × (execute_operations services context s
          ≡ (ok (some rs), t))
  plan-Executes services context Fresh Open h flat acquired reliable =
      let (selected, planned) =
        plan-IsPlanned digest latest_snapshot adapters policy collections request sources tasks
          context.plan h in
      execute_operations-Returns services context Fresh Open reliable
        (plan-Acyclic context.plan selected planned flat acquired)
