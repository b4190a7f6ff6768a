-- ===== src/Tests/Repositories.antt =====
-- A repository that is closed, and one in which a run and an operation are finished.
use mathlib.Core.Path.{subst}
use mathlib.Core.Logic.{◌↔◌}
use mathlib.Core.Option.{some-injective}
use efloud.Prelude.{String, string_eq, Bool, true, List, [], ◌∷◌, none, some, ◌≡◌, refl, sym, ◌==◌}
use efloud.Prelude.Dict
use efloud.Errors.{ok}
use efloud.Json.{Json, end}
use efloud.Models.{ArtifactObservation}
use efloud.Records.{RunRecord, OperationRecord}
use efloud.Catalog.Runs.{running_operation}
use efloud.Catalog.Cases.{CanFinish, CanFinishOperation, close_run, open_operation, close_operation}
use efloud.Datasets.Snapshots.{TreeEntry}
use efloud.Repository
use efloud.Repository.State.{RepositoryState, BlobStore}
use efloud.Repository.Observations.{Observed}
use efloud.Repository.Lifecycle.{with_catalog, finish_run-returns_iff}
use efloud.Repository.Operations.{finish_operation-returns_iff}
use efloud.Repository.Sequences.{RepositoryCall, start_run, start_operation, ingest, derive}
use efloud.Tests.Sample.{render, fetch}
use efloud.Tests.Services.{going, held, differ}

-- Texts stored under themselves.
abbrev texts : BlobStore (List String) String
texts = record {
  put_bytes = λ payload media_type blobs.
      (record { content_id = payload; byte_size = 1; media_type = media_type }, payload ∷ blobs);
  contains = λ id blobs. true;
}

abbrev same_id : ArtifactObservation → ArtifactObservation → Bool
same_id a b = a.observation_id == b.observation_id

abbrev no_tree : String → List TreeEntry
no_tree id = []

abbrev text : Json → String
text v = "?"

abbrev page_seen : Observed
page_seen = record {
  artifact_key = "page";
  run_id = "run:1";
  operation_id = "op:1";
  source_id = none;
  observed_at = 3;
  source_path = none;
  upstream_locator = none;
  upstream_modified_at = none;
  upstream_version = none;
  metadata = end;
  inputs = [];
}

abbrev calls : List (RepositoryCall String)
calls =
    start_run ("s" ∷ []) 1 end
    ∷ start_operation none fetch
    ∷ ingest "<html>" none page_seen
    ∷ derive "<html>" none (some "key:1") page_seen
    ∷ []

-- A run that has no operations is finished, and cannot be finished again.
abbrev finished : RepositoryState (List String)
finished = with_catalog held (close_run "run:1" 7 "partial" going held.catalog)

finish_run-returns_iff_example :
    (Repository.Runs.finish_run render "run:1" "partial" 7 held ≡ (ok tt, finished)) ↔ (
      (held.active ≡ true)
      × (run : RunRecord) × CanFinish held.catalog "run:1" "partial" run
      × (finished ≡ with_catalog held (close_run "run:1" 7 "partial" run held.catalog)))
finish_run-returns_iff_example = finish_run-returns_iff render held "run:1" "partial" 7 finished

can_finish : CanFinish held.catalog "run:1" "partial" going
unfolding Dict.lookup
can_finish = record { found = refl; running = refl; terminal = refl; idle = refl }

run_finishes : Repository.Runs.finish_run render "run:1" "partial" 7 held ≡ (ok tt, finished)
run_finishes = finish_run-returns_iff_example.1 (refl, going, can_finish, refl)

run_finishes_once :
    ¬ (Repository.Runs.finish_run render "run:1" "partial" 8 finished ≡ (ok tt, finished))
unfolding Dict.lookup Dict.insert
run_finishes_once h =
    let (active, run, can, e) =
      (finish_run-returns_iff render finished "run:1" "partial" 8 finished).0 h in
    differ "partial" "running" refl (
      subst (λ (z : RunRecord). z.status ≡ "running") (some-injective _ _ (sym can.found))
        can.running)

-- An operation that is running, and after it is cancelled.
abbrev fetching : OperationRecord
fetching = running_operation "op:1" fetch

abbrev busy : RepositoryState (List String)
busy = with_catalog held (open_operation "op:1" fetch held.catalog)

abbrev cancelled : RepositoryState (List String)
cancelled = with_catalog busy (close_operation "op:1" 7 "cancelled" end fetching busy.catalog)

finish_operation-returns_iff_example :
    (Repository.Runs.finish_operation render "op:1" "cancelled" 7 end busy ≡ (ok tt, cancelled)) ↔ (
      (busy.active ≡ true)
      × (o : OperationRecord) × CanFinishOperation busy.catalog "op:1" "cancelled" o
      × (cancelled ≡ with_catalog busy (close_operation "op:1" 7 "cancelled" end o busy.catalog)))
finish_operation-returns_iff_example =
    finish_operation-returns_iff render busy "op:1" "cancelled" 7 end cancelled

can_finish_operation : CanFinishOperation busy.catalog "op:1" "cancelled" fetching
unfolding Dict.lookup Dict.insert
can_finish_operation = record { found = refl; running = refl; terminal = refl }

operation_finishes :
    Repository.Runs.finish_operation render "op:1" "cancelled" 7 end busy ≡ (ok tt, cancelled)
operation_finishes =
    finish_operation-returns_iff_example.1 (refl, fetching, can_finish_operation, refl)
