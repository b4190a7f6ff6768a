-- ===== src/Tests/Plans.antt =====
-- Plans of two sources and a derived task, with and without the adapter of one of the sources.
use mathlib.Core.Option.{some-injective}
use efloud.Prelude.{
  String, string_eq, true, false, List, [], ◌∷◌, Option, none, some, ◌≡◌, refl, sym, ap, ◌∙◌, All,
  All-at,
}
use efloud.Prelude.Dict
use efloud.Prelude.Dict.{lookup}
use efloud.Prelude.Sort.{sort}
use efloud.Prelude.Text.{str_leb}
use efloud.Prelude.Keyed.{index, index_onto}
use efloud.Errors.{Result, ok, raise, traverse}
use efloud.Json.{end}
use efloud.Models.{SourceSnapshot, producer_ref, partition_colon}
use efloud.Records.{SourceRecord}
use efloud.Derivation.{DependencySemantics}
use efloud.Policy.{default_refresh_decision, source_scope}
use efloud.Sources.{Source, local, http, definition}
use efloud.Sources
use efloud.Adapters.{AdapterRegistry}
use efloud.Planning.{
  SyncRequest, SyncPlan, PlanningDecision, PlannedOperation, make_sync_plan, sorted_set,
}
use efloud.Executor.Operation
use efloud.Executor.Operation.{
  OperationExecutionResult, ExecutionContext, operation_kind, operation_parameters, start_operation,
  recorded_result, source_by_id, after_last_colon,
}
use efloud.Executor.Waves.{pending_operations, execute_operations}
use efloud.Repository.State.{RepositoryState}
use efloud.Repository.Fresh.{IsOpen, identifier, IsFresh, IsPlannedWell}
use efloud.Repository.Reliability.{repository-Reliable}
use efloud.Payloads.{operation_id_for}
use efloud.Planner.{DerivedTask, SyncPolicy, collection_by_source, plan}
use efloud.Executor.Run.{planned_sources, register_sources}
use efloud.Planner.Executable.{plan-Executes}
use efloud.Tests.Sample.{render}
use efloud.Tests.Executions.{services}
use efloud.Tests.Services.{work, calm, going, held, in_repository, differ}

abbrev common : String → Sources.Common
common id = record { id = id; description = ""; role = none; tags = [] }

abbrev here : Source
here = local (record {
  common = common "here";
  path = "/data/here";
  artifact_key = none;
  media_type = none;
  expected_integrity = [];
})

abbrev there : Source
there = http (record {
  common = common "there";
  url = "https://example.test/there";
  cache_name = none;
  expected_integrity = [];
})

abbrev local_only : AdapterRegistry
local_only =
    (
      "efloud:local",
      record {
        adapter_id = "efloud:local";
        version = "1";
        capabilities = record { inventory = true; fetch = true };
      },
    )
    ∷ []

abbrev both : AdapterRegistry
both =
    (
      "efloud:http",
      record {
        adapter_id = "efloud:http";
        version = "1";
        capabilities = record { inventory = true; fetch = true };
      },
    )
    ∷ local_only

abbrev no_snapshots : String → Option SourceSnapshot
no_snapshots id = none

abbrev default_policy : SyncPolicy
default_policy = record { refresh_decision = default_refresh_decision; source_scope = source_scope }

abbrev request : SyncRequest
request = record {
  source_ids = none;
  include_derived = true;
  dry_run = false;
  max_concurrency = 4;
  refresh = false;
  refresh_source_ids = [];
}

abbrev report : DerivedTask
report = record {
  name = "report";
  spec = record {
    task_id = "efloud:derived:report";
    task_version = "1";
    deterministic = true;
    dependency_semantics = DependencySemantics.content;
    parameters = end;
  };
  input_source_ids = "there" ∷ "here" ∷ [];
  output_names = "report.csv" ∷ [];
}

abbrev planned_with : AdapterRegistry → Result SyncPlan
planned_with adapters =
    plan render no_snapshots adapters default_policy [] request (there ∷ here ∷ []) (report ∷ [])

-- The plan that is returned, or one that is empty.
abbrev the_plan : Result SyncPlan → SyncPlan
the_plan (ok p) = p
the_plan (raise f) = record { plan_id = ""; request = request; decisions = []; operations = [] }

abbrev configured : String → String → Operation.Source
configured id adapter = record {
  id = id;
  adapter_id = adapter;
  collection = false;
  definition = end;
}

abbrev context_with : AdapterRegistry → ExecutionContext
context_with adapters = record {
  sources = configured "here" "efloud:local" ∷ configured "there" "efloud:http" ∷ [];
  plan = the_plan (planned_with adapters);
  run_id = "run:1";
}

abbrev configured_sources : List Operation.Source
configured_sources = (context_with local_only).sources

abbrev refused_ids : List String
refused_ids = sorted_set (planned_sources (the_plan (planned_with local_only)).operations)

-- The log after the one planned source is registered, and after the run is finished.
registered :
    register_sources services configured_sources refused_ids [] ≡ (ok tt, "source here" ∷ [])
unfolding register_sources plan traverse sort str_leb lookup make_sync_plan
registered = refl

both_planned : planned_with both ≡ ok (the_plan (planned_with both))
unfolding plan traverse sort str_leb lookup
both_planned = refl

both_selected :
    All {A = PlanningDecision} (λ d. d.selected ≡ true) (the_plan (planned_with both)).decisions
unfolding plan traverse sort str_leb lookup make_sync_plan
both_selected = (refl, (refl, tt))

abbrev both_operations : List PlannedOperation
both_operations = pending_operations (the_plan (planned_with both))

abbrev IsConfigured : PlannedOperation → Type 0
IsConfigured o =
    (id : String)
    → o.source_id ≡ some id
    → (c : Operation.Source) × (source_by_id (context_with both).sources id ≡ some c)

-- What is found under a name is found under any that is equal.
at_name :
    {A : Type 0} (f : String → Option A) (key : String) (a : A)
    → f key ≡ some a
    → (id : String) → some key ≡ some id
    → (b : A) × (f id ≡ some b)
at_name f key a e id h = (a, ap f (sym (some-injective _ _ h)) ∙ e)

both-IsConfigured : All IsConfigured both_operations
unfolding plan traverse sort str_leb lookup make_sync_plan pending_operations index index_onto
    Dict.insert
both-IsConfigured = (
  (λ id h. cc),
  (
    at_name (λ id. source_by_id (context_with both).sources id) "here" _ refl,
    (at_name (λ id. source_by_id (context_with both).sources id) "there" _ refl, tt),
  ),
)

abbrev IsProduced : PlannedOperation → Type 0
IsProduced o = producer_ref o.producer.producer_id o.producer.version ≡ ok o.producer

both-IsProduced : All IsProduced both_operations
unfolding plan traverse sort str_leb lookup make_sync_plan pending_operations index index_onto
    Dict.insert producer_ref partition_colon
both-IsProduced = (refl, (refl, (refl, tt)))

abbrev IsApart : PlannedOperation → PlannedOperation → Type 0
IsApart o q =
    ¬ (q.operation_key ≡ o.operation_key)
    → ¬ (identifier render (context_with both) q ≡ identifier render (context_with both) o)

both-IsApart : All (λ o. All (IsApart o) both_operations) both_operations
unfolding plan traverse sort str_leb lookup make_sync_plan pending_operations index index_onto
    Dict.insert operation_id_for operation_kind after_last_colon partition_colon render
both-IsApart = (
  ((λ d h. d refl), ((λ d. differ _ _ refl), ((λ d. differ _ _ refl), tt))),
  (
    ((λ d. differ _ _ refl), ((λ d h. d refl), ((λ d. differ _ _ refl), tt))),
    (((λ d. differ _ _ refl), ((λ d. differ _ _ refl), ((λ d h. d refl), tt))), tt),
  ),
)

well : IsPlannedWell render (context_with both) both_operations
well = record {
  configured = λ o id m. All-at IsConfigured o both_operations both-IsConfigured m id;
  produced = λ o m. All-at IsProduced o both_operations both-IsProduced m;
  apart = λ o q m n.
      All-at (IsApart o) q both_operations
        (All-at (λ o. All (IsApart o) both_operations) o both_operations both-IsApart m) n;
}

abbrev IsFreshHere : PlannedOperation → Type 0
IsFreshHere o = IsFresh render (context_with both) o held

not_started :
    (o : PlannedOperation)
    → ((id : String)
        → o.source_id ≡ some id
        → (r : SourceRecord) × (lookup id held.catalog.sources ≡ some r))
    → IsFreshHere o
unfolding lookup
not_started o registered = record {
  active = refl;
  run = going;
  found = refl;
  running = refl;
  registered = registered;
  unstarted = refl;
}

both_fresh : All IsFreshHere both_operations
unfolding plan traverse sort str_leb lookup make_sync_plan pending_operations index index_onto
    Dict.insert
both_fresh = (
  not_started _ (λ id h. cc),
  (
    not_started _ (at_name (λ id. lookup id held.catalog.sources) "here" _ refl),
    (not_started _ (at_name (λ id. lookup id held.catalog.sources) "there" _ refl), tt),
  ),
)

-- The plan is executed on the repository, whose adapters raise.
plan-Executes_example :
    (rs : List OperationExecutionResult) × (t : RepositoryState (List String)) × (execute_operations
        in_repository
        (context_with both)
        held
      ≡ (ok (some rs), t))
unfolding collection_by_source
plan-Executes_example =
    plan-Executes render no_snapshots both default_policy [] request (there ∷ here ∷ [])
      (report ∷ []) in_repository (context_with both) (IsFresh render (context_with both)) IsOpen
      both_planned (λ s r c m col found n i. cc)
      (λ d m r. All-at (λ (d : PlanningDecision). d.selected ≡ true) d _ both_selected m)
      (repository-Reliable render (λ kind. kind) (λ s. 5) work calm (context_with both)
        both_operations well)
      held (λ o m. All-at IsFreshHere o both_operations both_fresh m)
