-- ===== src/Tests/Catalogs.antt =====
-- A run with one operation, an observation and an absence.
use mathlib.Core.Option
use efloud.Prelude.{string_eq, List, [], ◌∷◌, ◌++◌, Option, none, some, ◌≡◌, refl, arith}
use efloud.Prelude.Dict
use efloud.Json.{end}
use efloud.Models.{ArtifactState, present, absent}
use efloud.Catalog.State.{MemoryCatalog, empty}
use efloud.Records.{RunRecord}
use efloud.Catalog.Runs.{start_run, finish_run, start_operation, check_producer, finish_operation}
use efloud.Catalog.Evidence.{
  latest_state, record_content, record_observation_bundle, record_absence,
}
use efloud.Catalog.Calls.{
  Call, start, finish, start_op, finish_op, bundle, absence, execute, run_calls, IsWellFormed,
  run_calls-IsWellFormed,
}
use efloud.Catalog.AppendOnly.{Extends, run_calls-Extends}
use efloud.Catalog.Latest.{Answers, latest_state-Answers}
use efloud.Catalog.AsOf.{latest_state-run_calls}
use efloud.Tests.Sample.{render, page, seen, gone, fetch}

abbrev acquisition : List Call
acquisition =
    start "run:1" 1 end
    ∷ start_op "op:1" fetch
    ∷ bundle page seen []
    ∷ finish "run:1" 6 "succeeded"
    ∷ finish_op "op:1" 6 "succeeded" end
    ∷ finish "run:1" 7 "succeeded"
    ∷ []

abbrev pub acquired : MemoryCatalog
acquired = run_calls render acquisition empty

run_calls-IsWellFormed_example : IsWellFormed acquired
run_calls-IsWellFormed_example = run_calls-IsWellFormed render acquisition

run_calls-Extends_example :
    Extends acquired (run_calls render (absence gone ∷ bundle page seen [] ∷ []) acquired)
run_calls-Extends_example =
    run_calls-Extends render (absence gone ∷ bundle page seen [] ∷ []) acquired
      run_calls-IsWellFormed_example

latest_state-Answers_example :
    Answers acquired "source:s" none (latest_state "source:s" none acquired)
latest_state-Answers_example =
    latest_state-Answers acquired "source:s" none run_calls-IsWellFormed_example.evidence

latest_state-run_calls_example :
    latest_state "source:s" (some 6) (run_calls render (absence gone ∷ []) acquired)
    ≡ latest_state "source:s" (some 6) acquired
latest_state-run_calls_example =
    latest_state-run_calls "source:s" 6 render (absence gone ∷ []) acquired (omega arith, tt)

run : List Call → MemoryCatalog
unfolding run_calls execute start_run finish_run start_operation check_producer finish_operation
    record_content record_observation_bundle record_absence Dict.lookup Dict.insert
run calls = run_calls render calls empty

state_now : MemoryCatalog → Option ArtifactState
unfolding latest_state
state_now = latest_state "source:s" none

-- The absence is the state once it is recorded, but not as of an earlier time.
absent_now : state_now (run (acquisition ++ (absence gone ∷ []))) ≡ some (absent gone)
unfolding run state_now
absent_now = refl

present_before :
    latest_state "source:s" (some 6) (run (acquisition ++ (absence gone ∷ [])))
    ≡ some (present seen)
unfolding run state_now
present_before = refl

-- The run was finished only once its operation was.
run_finished :
    Option.map (λ (r : RunRecord). r.finished_at) (Dict.lookup "run:1" (run acquisition).runs)
    ≡ some (some 7)
unfolding run
run_finished = refl
