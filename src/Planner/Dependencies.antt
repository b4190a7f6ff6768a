-- ===== src/Planner/Dependencies.antt =====
-- What the operations of a plan depend on, and which sources have an operation.
use mathlib.Core.Path.{subst}
use mathlib.Core.Option.{some-injective}
use efloud.Prelude.{
  String, true, false, List, [], Option, none, some, ◌≡◌, ◌↔◌, refl, sym, ap, ◌∙◌, arith, inl, inr,
}
use efloud.Prelude.{
  if-true, if-false, string_eq, filter, contains, Member, Member-filter, Member-map, Member-map_of,
  Member-unique, unique, Bool-cases, Option-cases, is_some,
}
use efloud.Prelude.Sort.{Member-sort}
use efloud.Prelude.Text.{str_leb}
use efloud.Errors.{ok, >>=-eq-ok, ok_injective}
use efloud.Models.{SourceId, SourceSnapshot}
use efloud.Derivation.{spec_producer}
use efloud.Sources.{Source, source_id, adapter_id, is_collection}
use efloud.Adapters.{AdapterDescriptor, AdapterRegistry, adapter_for}
use efloud.Planning.{SyncRequest, PlannedOperation, planned_operation, operation_key, sorted_set}
use efloud.Planner.{
  CollectionDefinition, DerivedTask, SyncPolicy, collection_by_source, source_key, derived_key,
  planned_dependency_keys, SourcePlan, source_operation, acquire_plan, adapter_plan, source_plan,
  derived_operation, task_operation, validate_task,
}

-- To construct an operation keeps its key and, as a set, its dependencies.
planned_operation-keeps :
    (o p : PlannedOperation)
    → planned_operation o ≡ ok p
    → (p.operation_key ≡ o.operation_key)
      × ((d : String) → Member d p.dependencies ↔ Member d o.dependencies)
unfolding planned_operation
planned_operation-keeps o p h =
    elim (Bool-cases (contains (sorted_set o.dependencies) o.operation_key)) [
      | inl e ↦ absurd (ground (arith, rw (e, planned_operation) at h))
      | inr e ↦
          let q = ok_injective (rw (e, planned_operation) at h) in
          (
            ap operation_key (sym q),
            λ d.
                subst (λ z. Member d z.dependencies ↔ Member d o.dependencies) q
                  (ground (
                    arith,
                    Member-sort str_leb d (unique o.dependencies),
                    Member-unique d o.dependencies,
                  )),
          )
    ]

-- `d` is the key of a selected input.
abbrev pub IsInputKey : List String → List String → String → Type 0
IsInputKey inputs selected d =
    (id : String) × (d ≡ source_key id) × Member id inputs × (contains selected id ≡ true)

pub Member-planned_dependency_keys :
    (inputs selected : List String) (d : String)
    → Member d (planned_dependency_keys inputs selected)
    → IsInputKey inputs selected d
unfolding planned_dependency_keys
Member-planned_dependency_keys inputs selected d m =
    let (id, k, e) =
      Member-map source_key d (filter (contains selected) inputs) ((Member-sort str_leb d _).0 m) in
    let n = (Member-filter (contains selected) id inputs).0 k in (id, e, n.0, n.1)

pub planned_dependency_keys-Member :
    (inputs selected : List String) (id : String)
    → Member id inputs
    → contains selected id ≡ true
    → Member (source_key id) (planned_dependency_keys inputs selected)
unfolding planned_dependency_keys
planned_dependency_keys-Member inputs selected id m h = (Member-sort str_leb (source_key id) _).1 (
    Member-map_of source_key id (filter (contains selected) inputs)
      ((Member-filter (contains selected) id inputs).1 (m, h)))

-- An operation that acquires the source: it depends on the selected inputs of a collection.
pub record IsSourceOperation (collections : List CollectionDefinition) (selected : List String)
    (s : Source) (o : PlannedOperation) : Type 0 where
  pub key : o.operation_key ≡ source_key (source_id s)
  pub inputs :
      (d : String)
      → Member d o.dependencies
      → (c : CollectionDefinition) × (is_collection s ≡ true)
        × (collection_by_source collections (source_id s) ≡ some c)
        × IsInputKey c.input_source_ids selected d

-- The operation of a derived task: it depends on the selected inputs of the task.
pub record IsDerivedOperation (selected : List String) (t : DerivedTask) (o : PlannedOperation)
    : Type 0 where
  pub key : o.operation_key ≡ derived_key t.name
  pub inputs : (d : String) → Member d o.dependencies ↔ IsInputKey t.input_source_ids selected d

-- What is planned for a source: it is selected exactly if it has an operation.
pub record IsSourcePlan (collections : List CollectionDefinition) (selected : List String)
    (s : Source) (p : SourcePlan) : Type 0 where
  pub named : p.0.source_id ≡ source_id s
  pub acquired : p.0.selected ≡ is_some p.1
  pub operation : (o : PlannedOperation) → p.1 ≡ some o → IsSourceOperation collections selected s o

module _ (latest_snapshot : SourceId → Option SourceSnapshot) (adapters : AdapterRegistry)
    (policy : SyncPolicy) (collections : List CollectionDefinition) (request : SyncRequest)
    (selected : List String) where
  acquire_plan-IsSourcePlan :
      (s : Source) (d : AdapterDescriptor) (inputs : List String) (p : SourcePlan)
      → ((k : String)
          → Member k inputs
          → (c : CollectionDefinition) × (is_collection s ≡ true)
            × (collection_by_source collections (source_id s) ≡ some c)
            × Member k c.input_source_ids)
      → acquire_plan latest_snapshot adapters policy collections request selected s d inputs ≡ ok p
      → IsSourcePlan collections selected s p
  unfolding acquire_plan
  acquire_plan-IsSourcePlan s d inputs p known h =
      let o =
        source_operation latest_snapshot adapters policy collections request selected s d inputs in
      let (q, e, g) = >>=-eq-ok (planned_operation o) _ h in
      let kept = planned_operation-keeps o q e in
      let pe = ok_injective g in
      subst (IsSourcePlan collections selected s) pe (record {
        named = refl;
        acquired = refl;
        operation = λ z ze.
            subst (IsSourceOperation collections selected s) (some-injective _ _ ze) (record {
              key = kept.0;
              inputs = λ k m.
                  let (id, ke, mi, si) =
                    Member-planned_dependency_keys inputs selected k ((kept.1 k).0 m) in
                  let (c, col, found, mc) = known id mi in (c, col, found, (id, ke, mc, si));
            });
      })

  no_operation-IsSourcePlan :
      (s : Source) (p q : SourcePlan)
      → q.0.source_id ≡ source_id s
      → q.0.selected ≡ false
      → q.1 ≡ none
      → ok q ≡ ok p
      → IsSourcePlan collections selected s p
  no_operation-IsSourcePlan s p q e f n h =
      subst (IsSourcePlan collections selected s) (ok_injective h)
        (record { named = e; acquired = rw n f; operation = λ z ze. cc })

  adapter_plan-IsSourcePlan :
      (s : Source) (d : AdapterDescriptor) (p : SourcePlan)
      → adapter_plan latest_snapshot adapters policy collections request selected s d ≡ ok p
      → IsSourcePlan collections selected s p
  unfolding adapter_plan
  adapter_plan-IsSourcePlan s d p h = elim (Bool-cases (is_collection s)) [
    | inr e ↦ acquire_plan-IsSourcePlan s d [] p (λ k m. absurd (m tt)) (sym (if-false _ _ _ e) ∙ h)
    | inl e ↦ elim (Option-cases (collection_by_source collections (source_id s))) [
      | inl n ↦ no_operation-IsSourcePlan s p _ refl refl refl (rw (e, n, adapter_plan) at h)
      | inr (c, f) ↦
          acquire_plan-IsSourcePlan s d c.input_source_ids p (λ k m. (c, e, f, m))
            (sym (if-true _ _ _ e ∙ rw f refl) ∙ h)
    ]
  ]

  pub source_plan-IsSourcePlan :
      (s : Source) (p : SourcePlan)
      → source_plan latest_snapshot adapters policy collections request selected s ≡ ok p
      → IsSourcePlan collections selected s p
  unfolding source_plan
  source_plan-IsSourcePlan s p h = elim (Bool-cases (contains selected (source_id s))) [
    | inr e ↦ no_operation-IsSourcePlan s p _ refl refl refl (rw (e, source_plan) at h)
    | inl e ↦ elim (Option-cases (adapter_for (adapter_id s) adapters)) [
      | inl n ↦ no_operation-IsSourcePlan s p _ refl refl refl (rw (e, n, source_plan) at h)
      | inr (d, f) ↦ adapter_plan-IsSourcePlan s d p (rw (e, f, source_plan) at h)
    ]
  ]

  pub derived_operation-IsDerivedOperation :
      (t : DerivedTask) (o : PlannedOperation)
      → derived_operation latest_snapshot adapters policy collections request selected t ≡ ok o
      → IsDerivedOperation selected t o
  unfolding derived_operation
  derived_operation-IsDerivedOperation t o h =
      let (v, e, g) = >>=-eq-ok (validate_task t) _ h in
      let (producer, f, k) = >>=-eq-ok (spec_producer t.spec) _ g in
      let kept =
        planned_operation-keeps
          (task_operation latest_snapshot adapters policy collections request selected t producer) o
          k in
      record {
        key = kept.0;
        inputs = λ d. (
          λ m.
              let (id, de, mi, si) =
                Member-planned_dependency_keys (sorted_set t.input_source_ids) selected d
                  ((kept.1 d).0 m) in
              (
                id,
                de,
                (Member-unique id t.input_source_ids).0 ((Member-sort str_leb id _).0 mi),
                si,
              ),
          λ (id, de, mi, si). (kept.1 d).1 (
              subst
                (λ z. Member z (planned_dependency_keys (sorted_set t.input_source_ids) selected))
                (sym de)
                (planned_dependency_keys-Member (sorted_set t.input_source_ids) selected id
                  ((Member-sort str_leb id _).1 ((Member-unique id t.input_source_ids).1 mi)) si)),
        );
      }
