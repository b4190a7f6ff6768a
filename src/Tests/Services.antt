-- ===== src/Tests/Services.antt =====
-- A repository with a run that is running and two sources, and the work of adapters and tasks.
use efloud.Prelude.{String, string_eq, ◌==◌, Bool, true, false, List, [], ◌∷◌, none, ◌≡◌, arith}
use efloud.Json.{end}
use efloud.Records.{SourceRecord, RunRecord}
use efloud.Catalog.State.{MemoryCatalog, empty}
use efloud.Executor.Store.{Services, RecordedStatus, recorded, raised}
use efloud.Repository.State.{RepositoryState}
use efloud.Repository.Services.{Work, repository_services}
use efloud.Repository.Fresh.{Uncancelled, Undisturbed-refl}
use efloud.Tests.Sample.{render}

abbrev status_if : Bool → RecordedStatus
status_if true = RecordedStatus.failed
status_if false = RecordedStatus.succeeded

-- The task `a` fails, and the adapters raise.
abbrev pub work : Work (List String)
work = record {
  has_adapter = λ id. true;
  has_task = λ name. true;
  acquire = λ o id s. (raised "timeout", s);
  derive = λ o id s. (recorded (status_if (o.subject == "a")) [] end, s);
}

pub calm : Uncancelled work
calm = record {
  acquired = λ o id s. ((λ h. cc), Undisturbed-refl s);
  derived = λ o id s. ((λ h. cc), Undisturbed-refl s);
}

abbrev source : String → SourceRecord
source id = record { source_id = id; definition = end; revision_id = "rev:1"; revisions = [] }

abbrev pub going : RunRecord
going = record {
  run_id = "run:1";
  started_at = 1;
  finished_at = none;
  status = "running";
  metadata = end;
}

abbrev pub catalog : MemoryCatalog
catalog = record empty {
  sources = ("here", source "here") ∷ ("there", source "there") ∷ [];
  runs = ("run:1", going) ∷ [];
}

abbrev pub held : RepositoryState (List String)
held = record { catalog = catalog; blobs = []; active = true }

abbrev pub in_repository : Services (RepositoryState (List String))
in_repository = repository_services render (λ kind. kind) (λ s. 5) work

-- Texts that the test tells apart.
pub differ : (a b : String) → (a == b) ≡ false → ¬ (a ≡ b)
differ a b h e = ground (arith, string_eq.beq_iff a b)
