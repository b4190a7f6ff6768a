-- ===== src/Repository/Services.antt =====
-- The repository as the services of the executor: `SyncExecutor.execute` is given a repository, and
-- calls the methods of repository.py. `clock` stands for `time.time()`.
use efloud.Prelude.{ℕ, String, Bool, some, map}
use efloud.Prelude.{string_eq, filter}
use efloud.Errors.{Result, ok, raise}
use efloud.Json.{Json}
use efloud.Models.{OperationId}
use efloud.Records.{OperationRecord}
use efloud.Catalog.Runs.{operations_for_run}
use efloud.Planning.{PlannedOperation}
use efloud.Executor.Store.{Services, Attempt}
use efloud.Repository
use efloud.Repository.State.{RepositoryState}
use efloud.Repository.Runs.{is_running}

-- The adapters and the derived tasks, on the state of the repository.
pub record Work (Blobs : Type 0) : Type 0 where
  pub has_adapter : String → Bool
  pub has_task : String → Bool
  pub acquire :
      PlannedOperation → OperationId → RepositoryState Blobs → Attempt × RepositoryState Blobs
  pub derive :
      PlannedOperation → OperationId → RepositoryState Blobs → Attempt × RepositoryState Blobs

-- The call with what it returns dropped.
abbrev pub quietly : {A S : Type 0} → Result A × S → Result (Unit {0}) × S
quietly (ok a, s) = (ok tt, s)
quietly (raise fault, s) = (raise fault, s)

module _ {Blobs : Type 0} (digest : Json → String) (normalize : String → String)
    (clock : RepositoryState Blobs → ℕ) (work : Work Blobs) where
  abbrev pub repository_services : Services (RepositoryState Blobs)
  repository_services = record {
    register_source =
        λ id definition s. quietly (Repository.Runs.register_source digest id definition s);
    start_run = λ ids metadata s. Repository.Runs.start_run digest ids (clock s) metadata s;
    finish_run = λ id status s. Repository.Runs.finish_run digest id status (clock s) s;
    running_operations = λ id s.
        map (λ (o : OperationRecord). o.operation_id)
          (filter is_running (operations_for_run id s.catalog));
    start_operation = λ a s.
        Repository.Runs.start_operation digest normalize (some a.producer)
          (record {
            run_id = a.run_id;
            source_id = a.source_id;
            kind = a.kind;
            subject = a.subject;
            started_at = clock s;
            parameters = a.parameters;
          })
          s;
    finish_operation = λ id status details s.
        Repository.Runs.finish_operation digest id status (clock s) details s;
    has_adapter = work.has_adapter;
    has_task = work.has_task;
    acquire = work.acquire;
    derive = work.derive;
  }
