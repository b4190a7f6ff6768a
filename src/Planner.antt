-- ===== src/Planner.antt =====
-- planner.py: which sources and derived tasks a run takes, as the operations of a plan.
pub mod Dependencies
pub mod Planned
pub mod Unknown
pub mod Refused
pub mod Executable
use efloud.Prelude.{
  ℕ, String, ◌<>◌, Bool, true, false, List, [], ◌∷◌, ◌++◌, Option, none, some, not, map, ◌||◌, ◌&&◌,
}
use efloud.Prelude.{if◌then◌else◌, ◌==◌, string_eq, any, all, filter, contains, distinct}
use efloud.Prelude.Sort.{sort}
use efloud.Prelude.Text.{str_leb}
use efloud.Errors.{Result, ok, raise, Fault, ◌>>=◌, traverse}
use efloud.Json.{Json, JsonObject, str, obj, end, field, put_some, string_array}
use efloud.Models.{SourceId, SourceSnapshot, ProducerRef}
use efloud.Derivation.{DerivedTaskSpec, spec_producer, spec_to_dict}
use efloud.Sources.{
  Source, local, http, rest, rsync, collection, common_of, source_id, adapter_id, is_collection,
  definition,
}
use efloud.Adapters.{
  AdapterDescriptor, AdapterRegistry, adapter_for, descriptor_producer, capabilities_to_dict,
}
use efloud.Planning.{
  RefreshDecision, SyncRequest, PlanningDecision, PlannedOperation, PlannedOperationKind, source,
  derived, planned_operation, SyncPlan, make_sync_plan, sorted_set,
}
use efloud.Policy.{PolicySource}

-- What the planner reads of a `CollectionDefinition`, whose input sources are a sorted set.
pub record CollectionDefinition : Type 0 where
  pub source_id : String
  pub input_source_ids : List String

-- `DerivedTask`, without its `run`.
pub record DerivedTask : Type 0 where
  pub name : String
  pub spec : DerivedTaskSpec
  pub input_source_ids : List String
  pub output_names : List String

-- `SyncPolicy`, as the planner calls it.
pub record SyncPolicy : Type 0 where
  pub refresh_decision : PolicySource → SyncRequest → Option SourceSnapshot → RefreshDecision
  pub source_scope : PolicySource → List String

abbrev rsync_paths : Source → Option (List String)
rsync_paths (rsync s) = some s.paths
rsync_paths _ = none

abbrev pub policy_source : Source → PolicySource
policy_source s = record {
  id = source_id s;
  role = (common_of s).role;
  rsync_paths = rsync_paths s;
  collection = is_collection s;
}

-- `_collection_by_source`
unfoldable pub collection_by_source :
    List CollectionDefinition → String → Option CollectionDefinition
collection_by_source [] id = none
collection_by_source (d ∷ ds) id = if d.source_id == id then some d else collection_by_source ds id

-- `_selected_source_ids`; a set is a list, of which only membership counts.
unfoldable pub selected_source_ids : List Source → SyncRequest → Result (List String)
selected_source_ids sources request = elim request.source_ids [
  | none ↦ ok (map source_id sources)
  | some ids ↦
      if all (contains (map source_id sources)) ids
      then ok ids
      else raise Fault.unknown_requested_sources
]

abbrev pub source_key : String → String
source_key id = "source:" <> id

abbrev pub derived_key : String → String
derived_key name = "derived:" <> name

-- `_planned_dependency_keys`
unfoldable pub planned_dependency_keys : List String → List String → List String
planned_dependency_keys input_source_ids selected =
    sort str_leb (map source_key (filter (contains selected) input_source_ids))

abbrev pub snapshot_id_of : Option SourceSnapshot → Option Json
snapshot_id_of none = none
snapshot_id_of (some s) = some (str s.snapshot_id)

-- `_source_operation_parameters`
unfoldable pub source_operation_parameters :
    Source → Option SourceSnapshot → Json → List String → JsonObject
unfolding adapter_id definition
source_operation_parameters s snapshot capabilities input_source_ids =
    put_some "current_snapshot_id" (snapshot_id_of snapshot) (
      field "adapter_id" (str (adapter_id s)) (
        field "source_definition" (obj (definition s)) (
          field "adapter_capabilities" capabilities
            (field "input_source_ids" (string_array input_source_ids) end))))

-- `_validate_task`; the second test of the code never holds, as an identity is not empty.
unfoldable pub validate_task : DerivedTask → Result (Unit {0})
validate_task task =
    if not (distinct task.output_names) || any (λ name. name == "") task.output_names
    then raise Fault.invalid_task_outputs
    else if not (task.spec.task_id == "efloud:derived:" <> task.name) && task.spec.task_id == ""
    then raise Fault.invalid_task_identity
    else ok tt

abbrev pub unplanned : String → String → Option String → Option String → PlanningDecision
unplanned id reason adapter version = record {
  source_id = id;
  selected = false;
  reason = reason;
  adapter_id = adapter;
  adapter_version = version;
  refresh = none;
  scope = [];
}

-- What is planned for a source: a decision, and an operation if it is acquired.
abbrev pub SourcePlan : Type 0
SourcePlan = PlanningDecision × Option PlannedOperation

module _ (latest_snapshot : SourceId → Option SourceSnapshot) (adapters : AdapterRegistry)
    (policy : SyncPolicy) (collections : List CollectionDefinition) (request : SyncRequest)
    (selected : List String) where
  -- The operation of a source that is acquired, before its construction.
  abbrev pub source_operation : Source → AdapterDescriptor → List String → PlannedOperation
  source_operation s d input_source_ids =
      let snapshot = latest_snapshot (source_id s) in
      record {
        operation_key = source_key (source_id s);
        kind = source;
        subject = source_id s;
        producer = descriptor_producer d;
        source_id = some (source_id s);
        dependencies = planned_dependency_keys input_source_ids selected;
        refresh = some (policy.refresh_decision (policy_source s) request snapshot);
        scope = policy.source_scope (policy_source s);
        parameters =
            source_operation_parameters s snapshot (capabilities_to_dict d.capabilities)
              input_source_ids;
      }

  unfoldable pub acquire_plan : Source → AdapterDescriptor → List String → Result SourcePlan
  unfolding planned_operation planned_dependency_keys source_operation_parameters
      capabilities_to_dict
  acquire_plan s d input_source_ids = do
    operation ← planned_operation (source_operation s d input_source_ids)
    ok (
      record {
        source_id = source_id s;
        selected = true;
        reason = "source selected for acquisition";
        adapter_id = some d.adapter_id;
        adapter_version = some d.version;
        refresh =
            some
              (policy.refresh_decision (policy_source s) request (latest_snapshot (source_id s)));
        scope = policy.source_scope (policy_source s);
      },
      some operation,
    )

  -- The part of `_source_plan` after the adapter is found.
  unfoldable pub adapter_plan : Source → AdapterDescriptor → Result SourcePlan
  unfolding acquire_plan collection_by_source
  adapter_plan s d =
      if is_collection s
      then elim (collection_by_source collections (source_id s)) [
        | none ↦ ok (
          unplanned (source_id s) "collection source has no configured CollectionDefinition"
              (some d.adapter_id) (some d.version),
          none,
        )
        | some definition ↦ acquire_plan s d definition.input_source_ids
      ]
      else acquire_plan s d []

  -- `_source_plan`
  unfoldable pub source_plan : Source → Result SourcePlan
  unfolding adapter_plan adapter_for adapter_id
  source_plan s =
      if not (contains selected (source_id s))
      then ok (unplanned (source_id s) "source not requested" none none, none)
      else elim (adapter_for (adapter_id s) adapters) [
        | none ↦ ok (
          unplanned (source_id s) ("no adapter registered for " <> adapter_id s)
              (some (adapter_id s)) none,
          none,
        )
        | some d ↦ adapter_plan s d
      ]

  abbrev pub source_plans : List Source → Result (List SourcePlan)
  source_plans = traverse source_plan

  -- `str(snapshot.snapshot_id)` for each input that has a snapshot.
  abbrev pub input_snapshot_ids : List String → List String
  input_snapshot_ids [] = []
  input_snapshot_ids (id ∷ ids) =
      let rest = input_snapshot_ids ids in
      elim (latest_snapshot id) [ none ↦ rest | some s ↦ s.snapshot_id ∷ rest ]

  -- The operation of a derived task, before its construction.
  abbrev pub task_operation : DerivedTask → ProducerRef → PlannedOperation
  task_operation task producer =
      let inputs = sorted_set task.input_source_ids in
      record {
        operation_key = derived_key task.name;
        kind = derived;
        subject = task.name;
        producer = producer;
        source_id = none;
        dependencies = planned_dependency_keys inputs selected;
        refresh = none;
        scope = [];
        parameters = field "input_source_ids" (string_array inputs) (
            field "input_snapshot_ids" (string_array (input_snapshot_ids inputs)) (
              field "declared_outputs" (string_array task.output_names)
                (field "task_spec" (spec_to_dict task.spec) end)));
      }

  unfoldable pub derived_operation : DerivedTask → Result PlannedOperation
  unfolding validate_task spec_producer spec_to_dict planned_operation planned_dependency_keys
  derived_operation task = do
    valid ← validate_task task
    producer ← spec_producer task.spec
    planned_operation (task_operation task producer)

  abbrev pub derived_operations : List DerivedTask → Result (List PlannedOperation)
  derived_operations = traverse derived_operation

abbrev pub source_operations : List SourcePlan → List PlannedOperation
source_operations [] = []
source_operations ((d, none) ∷ ps) = source_operations ps
source_operations ((d, some o) ∷ ps) = o ∷ source_operations ps

abbrev pub decisions_of : List SourcePlan → List PlanningDecision
decisions_of ps = map (λ p. p.0) ps

abbrev pub source_leb : Source → Source → Bool
source_leb a b = str_leb (source_id a) (source_id b)

abbrev pub task_leb : DerivedTask → DerivedTask → Bool
task_leb a b = str_leb a.name b.name

-- The derived tasks that are planned: none if the request leaves them out.
abbrev pub requested_tasks : SyncRequest → List DerivedTask → List DerivedTask
requested_tasks request tasks = if request.include_derived then sort task_leb tasks else []

-- `SyncPlanner.plan`
unfoldable pub plan :
    (Json → String)
    → (SourceId → Option SourceSnapshot)
    → AdapterRegistry
    → SyncPolicy
    → List CollectionDefinition
    → SyncRequest
    → List Source
    → List DerivedTask
    → Result SyncPlan
unfolding selected_source_ids source_plan derived_operation make_sync_plan
plan digest latest_snapshot adapters policy collections request sources tasks = do
  selected ← selected_source_ids sources request
  plans ←
      source_plans latest_snapshot adapters policy collections request selected
        (sort source_leb sources)
  operations ←
      derived_operations latest_snapshot adapters policy collections request selected
        (requested_tasks request tasks)
  ok (make_sync_plan digest request (decisions_of plans) (source_operations plans ++ operations))
