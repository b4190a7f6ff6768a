-- ===== src/Planner/Planned.antt =====
-- The operations of a plan that `SyncPlanner.plan` returns: where they come from.
use mathlib.Core.Path.{subst}
use mathlib.Core.Option.{some-injective}
use efloud.Prelude.{
  String, Bool, true, List, [], ◌∷◌, ◌++◌, Option, none, some, map, ◌≡◌, ◌↔◌, ◌⊎◌, refl, sym, ap,
  ◌∙◌, arith, inl, inr,
}
use efloud.Prelude.{
  string_eq, all, all_iff, contains, contains_iff, Member, Member-append, Bool-cases, Option-cases,
  Member-map_of,
}
use efloud.Prelude.Sort.{sort, Member-sort}
use efloud.Errors.{Result, ok, >>=-eq-ok, ok_injective, traverse, traverse-of, traverse-from}
use efloud.Json.{Json}
use efloud.Models.{SourceId, SourceSnapshot}
use efloud.Sources.{Source, source_id}
use efloud.Adapters.{AdapterRegistry}
use efloud.Planning.{
  SyncRequest, PlannedOperation, SyncPlan, make_sync_plan, decision_leb, operation_leb,
}
use efloud.Planner.{
  CollectionDefinition, DerivedTask, SyncPolicy, SourcePlan, source_plans, derived_operation,
  derived_operations, source_operations, source_plan, decisions_of, selected_source_ids, source_leb,
  requested_tasks, plan,
}
use efloud.Planner.Dependencies.{IsDerivedOperation, derived_operation-IsDerivedOperation}

Member-source_operations :
    (o : PlannedOperation) (ps : List SourcePlan)
    → Member o (source_operations ps) ↔ ((p : SourcePlan) × Member p ps × (p.1 ≡ some o))
Member-source_operations o [] = (λ m. absurd (m tt), λ (p, m, e). absurd (m tt))
Member-source_operations o ((d, none) ∷ ps) = (
  λ m. let (p, n, e) = (Member-source_operations o ps).0 m in (p, inr n, e),
  λ (p, n, e). elim n [ inl q ↦ cc | inr r ↦ (Member-source_operations o ps).1 (p, r, e) ],
)
Member-source_operations o ((d, some x) ∷ ps) = (
  λ m. elim m [
    | inl q ↦ ((d, some x), inl refl, ap some (sym q))
    | inr r ↦ let (p, n, e) = (Member-source_operations o ps).0 r in (p, inr n, e)
  ],
  λ (p, n, e). elim n [
    | inl q ↦ inl (some-injective _ _ (sym e ∙ ap (λ z. z.1) q))
    | inr r ↦ inr ((Member-source_operations o ps).1 (p, r, e))
  ],
)

-- Whether the request names a configured source, or all of them.
abbrev pub is_requested : List Source → SyncRequest → String → Bool
is_requested sources request id = elim request.source_ids [
  | none ↦ contains (map source_id sources) id
  | some ids ↦ contains ids id
]

-- The set of selected sources holds those that are requested, all of them configured.
pub record IsSelection (sources : List Source) (request : SyncRequest) (selected : List String)
    : Type 0 where
  pub requested : (id : String) → contains selected id ≡ is_requested sources request id
  pub configured : (id : String) → contains selected id ≡ true → Member id (map source_id sources)

selected_source_ids-IsSelection :
    (sources : List Source) (request : SyncRequest) (selected : List String)
    → selected_source_ids sources request ≡ ok selected
    → IsSelection sources request selected
unfolding selected_source_ids
selected_source_ids-IsSelection sources request selected h =
    elim (Option-cases request.source_ids) [
      | inl e ↦
          subst (IsSelection sources request) (ok_injective (rw (e, selected_source_ids) at h))
            (record {
              requested = λ id. rw e refl;
              configured = λ id k. (contains_iff (map source_id sources) id).0 k;
            })
      | inr (ids, e) ↦ elim (Bool-cases (all (contains (map source_id sources)) ids)) [
        | inr n ↦ absurd (ground (arith, rw (e, n, selected_source_ids) at h))
        | inl y ↦
            subst (IsSelection sources request) (ok_injective (rw (e, y, selected_source_ids) at h))
              (record {
                requested = λ id. rw e refl;
                configured = λ id k. (contains_iff (map source_id sources) id).0 (
                    (all_iff (contains (map source_id sources)) ids).0 y id
                      ((contains_iff ids id).0 k));
              })
      ]
    ]

module _ (digest : Json → String) (latest_snapshot : SourceId → Option SourceSnapshot)
    (adapters : AdapterRegistry) (policy : SyncPolicy) (collections : List CollectionDefinition)
    (request : SyncRequest) (sources : List Source) (tasks : List DerivedTask) where
  abbrev pub plan_source : List String → Source → Result SourcePlan
  plan_source selected = source_plan latest_snapshot adapters policy collections request selected

  -- How the parts of a plan belong to the sources and to the tasks.
  pub record IsPlanned (selected : List String) (p : SyncPlan) : Type 0 where
    pub selection : IsSelection sources request selected
    pub of_source :
        (s : Source)
        → Member s sources
        → (q : SourcePlan) × (plan_source selected s ≡ ok q)
          × Member q.0 p.decisions
          × ((o : PlannedOperation) → q.1 ≡ some o → Member o p.operations)
    pub of_task :
        (t : DerivedTask)
        → Member t (requested_tasks request tasks)
        → (o : PlannedOperation) × Member o p.operations × IsDerivedOperation selected t o
    pub of_operation :
        (o : PlannedOperation)
        → Member o p.operations
        → ((s : Source) × (q : SourcePlan) × Member s sources
            × (plan_source selected s ≡ ok q)
            × (q.1 ≡ some o))
          ⊎ ((t : DerivedTask) × Member t (requested_tasks request tasks)
              × IsDerivedOperation selected t o)

  made-IsPlanned :
      (selected : List String) (plans : List SourcePlan) (os : List PlannedOperation)
      → IsSelection sources request selected
      → traverse (plan_source selected) (sort source_leb sources) ≡ ok plans
      → derived_operations latest_snapshot adapters policy collections request selected
          (requested_tasks request tasks)
        ≡ ok os
      → IsPlanned selected
          (make_sync_plan digest request (decisions_of plans) (source_operations plans ++ os))
  unfolding make_sync_plan
  made-IsPlanned selected plans os sel e d =
      let task_operation_of =
        derived_operation latest_snapshot adapters policy collections request selected in
      let listed = λ (o : PlannedOperation) (m : Member o (source_operations plans) ⊎ Member o os).
        (Member-sort operation_leb o (source_operations plans ++ os)).1
          ((Member-append o (source_operations plans) os).1 m) in
      record {
        selection = sel;
        of_source = λ s m.
            let (q, n, i) =
              traverse-of (plan_source selected) (sort source_leb sources) plans s e
                ((Member-sort source_leb s sources).1 m) in
            (
              q,
              i,
              (Member-sort decision_leb q.0 (decisions_of plans)).1
                  (Member-map_of (λ z. z.0) q plans n),
              λ o oe. listed o (inl ((Member-source_operations o plans).1 (q, n, oe))),
            );
        of_task = λ t m.
            let (o, n, i) =
              traverse-of task_operation_of (requested_tasks request tasks) os t d m in
            (
              o,
              listed o (inr n),
              derived_operation-IsDerivedOperation latest_snapshot adapters policy collections
                  request selected t o i,
            );
        of_operation = λ o m.
            elim ((Member-append o (source_operations plans) os).0
              ((Member-sort operation_leb o (source_operations plans ++ os)).0 m)) [
                | inl n ↦
                    let (q, k, oe) = (Member-source_operations o plans).0 n in
                    let (s, j, i) =
                      traverse-from (plan_source selected) (sort source_leb sources) plans q e k in
                    inl (s, q, (Member-sort source_leb s sources).0 j, i, oe)
                | inr n ↦
                    let (t, k, i) =
                      traverse-from task_operation_of (requested_tasks request tasks) os o d n in
                    inr (
                      t,
                      k,
                      derived_operation-IsDerivedOperation latest_snapshot adapters policy
                          collections request selected t o i,
                    )
              ];
      }

  pub plan-IsPlanned :
      (p : SyncPlan)
      → plan digest latest_snapshot adapters policy collections request sources tasks ≡ ok p
      → (selected : List String) × IsPlanned selected p
  unfolding plan
  plan-IsPlanned p h =
      let (selected, e, f) = >>=-eq-ok (selected_source_ids sources request) _ h in
      let (plans, g, k) =
        >>=-eq-ok
          (source_plans latest_snapshot adapters policy collections request selected
            (sort source_leb sources))
          _ f in
      let (os, i, j) =
        >>=-eq-ok
          (derived_operations latest_snapshot adapters policy collections request selected
            (requested_tasks request tasks))
          _ k in
      (
        selected,
        subst (IsPlanned selected) (ok_injective j) (
            made-IsPlanned selected plans os
              (selected_source_ids-IsSelection sources request selected e) g i),
      )
