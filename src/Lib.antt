-- ===== src/Lib.antt =====
-- efloud acquires files from declared sources, records what it saw as immutable evidence, and
-- derives datasets from it. This library models the parts that decide: what the catalog keeps, what
-- an inventory shows to be new or gone, what a plan is, and how a plan is executed.
--
-- The parts, their files here and the code that each translates:
--
--   Json, Models, Records  the values and records of src/efloud/json_types.py,
--                          repository_models.py and metadata_store.py
--   Envelopes              src/efloud/metadata_envelopes.py: the histories of source definitions and
--                          the specifications of datasets, as written into the store and read back
--   Catalog                src/efloud/catalog/memory.py: State holds the fields of MemoryCatalog;
--                          Runs, Evidence and Snapshots its methods; Calls the sequences of calls
--   Payloads               the serialisations and identifiers of repository_models.py and inventory.py
--   Inventory              src/efloud/inventory.py: coverage, change tokens, absence evidence;
--                          Integrity its checks of upstream digests
--   Reconciliation         src/efloud/reconciliation.py: reconcile_inventory and its helpers
--   Planning, Policy       src/efloud/planning.py and policy.py: requests, plans, refresh decisions
--   Sources, Adapters      src/efloud/sources.py and adapters.py: declared sources, and the registry
--   Planner                src/efloud/planner.py: Dependencies and Planned say where the operations
--                          of a plan come from, Executable, Unknown and Refused what becomes of
--                          them
--   Executor               src/efloud/executor.py: Store is the interface to the repository, the
--                          adapters and the derived tasks; Operation has _execute_operation and
--                          _blocked_operation, Waves the loop of _execute_operations, Run
--                          SyncExecutor.execute
--   Derivation             src/efloud/derivation.py: task specifications and derivation keys
--   Datasets               src/efloud/dataset_selectors.py, dataset_constraints.py and datasets.py:
--                          Snapshots has the members of a source snapshot and the interface to the
--                          repository, Selectors the selectors, Constraints the checks, Resolve
--                          resolve_dataset, Reader the catalog as that repository
--   Validation             src/efloud/validation.py: the registry and the service; Builtin has the
--                          validators that come with it and validate_content
--   Repository             src/efloud/repository.py: State has the state and the lease of
--                          writer_coordination.py, Runs, Observations and Snapshots the methods,
--                          Lifecycle and Operations when those on runs and operations return,
--                          Sequences the sequences of calls, Services the repository as the
--                          services of the executor, Fresh and Reliability what it promises them
--   Errors                 one fault for each exception raised; Prelude the shared lists, dicts
--                          and sorts; Tests the sample data and the witnesses
--
-- How they interact: the executor starts and finishes operations through the interface, whose
-- repository writes to the catalog. Services are reliable for a plan (Executor.Returns.Reliable) if an
-- operation that can be started is started and is then open, the work on an open operation is not
-- cancelled, an open operation is finished with any terminal status, and no call takes from another
-- operation that it can be started. Records enter the catalog through the checks of Envelopes and
-- Records. A reconciliation takes an inventory and a baseline read from the catalog, and its decisions
-- say which items are acquired and which are recorded as absent. The planner makes the plan that the
-- executor runs. A dataset is resolved against what the catalog holds.
--
-- How the state corresponds: a method that changes the catalog is a function from its arguments and
-- the state to an outcome, which is what it returns or raises and the state that it leaves. Dicts keep
-- insertion order, sorts are stable, strings are compared by code points. An executor call is a
-- function of the state of its services. The loop over waves runs on fuel, one wave for each
-- operation of the plan; this suffices since a wave that does not raise takes at least one operation.
--
-- What is taken as a parameter: the SHA-256 of canonical JSON (digest), str.lower (lower),
-- str.strip (strip), the form of a kind of operation (normalize), the blob store (store), the time (clock), the
-- resolution of paths (resolve), == on observations (equal), str of a JSON value (str_json), the
-- entries of a tree (tree_entries), the reading of a content (open_content), the digest and the
-- decoders of a stream (sha256, gunzip, json_type), and the services of the executor. What is
-- simplified: times and JSON numbers are natural numbers, the wording of exceptions and of decision
-- reasons is not kept, and the operations of a wave run in the order of their keys, one after the
-- other, which is one of the orders that asyncio may choose; a wave ends at the first exception
-- that leaves an operation.
--
-- What is not modelled: the SQLite catalog, the stores on disk and the trees and
-- materializations that they keep, the methods of the repository that read a path, transports and the work of the
-- adapters, lockfiles, projects and the command surface.
pub mod Prelude
pub mod Errors
pub mod Json
pub mod Models
pub mod Envelopes
pub mod Records
pub mod Catalog
pub mod Inventory
pub mod Reconciliation
pub mod Payloads
pub mod Derivation
pub mod Planning
pub mod Sources
pub mod Adapters
pub mod Policy
pub mod Planner
pub mod Datasets
pub mod Validation
pub mod Repository
pub mod Executor
pub mod Tests
