-- ===== src/Tests/Manifests.antt =====
-- A dataset of one named observation, with a constraint of each kind that the catalog meets.
use efloud.Prelude.{
  ◌+◌, ◌≤◌, String, string_eq, ◌==◌, Bool, true, false, List, [], ◌∷◌, none, some, ◌≡◌, refl, inl,
  map, Member, arith, Distinct,
}
use efloud.Prelude.Dict
use efloud.Prelude.Dict.{lookup}
use efloud.Prelude.Sort.{sort, Sorted}
use efloud.Errors.{Result, ok, raise, traverse}
use efloud.Json.{Json, end}
use efloud.Models.{ArtifactObservation, ValidationResult, passed}
use efloud.Records.{DatasetMemberRecord}
use efloud.Catalog.State.{MemoryCatalog, empty}
use efloud.Catalog.Runs.{start_run, start_operation, check_producer}
use efloud.Catalog.Evidence.{record_content, record_observation_bundle, latest_state}
use efloud.Catalog.Snapshots.{record_validation, validation}
use efloud.Catalog.Calls.{
  Call, start, start_op, bundle, absence, validated, execute, run_calls, IsWellFormed,
  run_calls-IsWellFormed,
}
use efloud.Datasets.Snapshots.{TreeEntry}
use efloud.Datasets.Selectors.{exact_observation, latest_before}
use efloud.Datasets.Reader.{catalog_reader, IsRecorded}
use efloud.Datasets.Resolve.{
  DatasetSelection, DatasetDefinition, DatasetManifest, member_of, resolve_dataset,
  dataset_artifact,
}
use efloud.Datasets.Members.{member_key, member_leb}
use efloud.Datasets.Frozen.{resolve_dataset-Recorded, dataset_artifact-resolve}
use efloud.Datasets.Constrained.{
  Observed, resolve_dataset-validated, resolve_dataset-same_run, resolve_dataset-skew,
}
use efloud.Datasets.Stable.{resolve_dataset-run_calls}
use efloud.Tests.Sample.{render, page, seen, gone, fetch}

abbrev same_id : ArtifactObservation → ArtifactObservation → Bool
same_id a b = a.observation_id == b.observation_id

abbrev no_tree : String → List TreeEntry
no_tree id = []

abbrev text : Json → String
text v = "?"

abbrev check : ValidationResult
check = record {
  content_id = "sha256:aa";
  validator = "efloud:json";
  validator_version = "1";
  checked_at = 6;
  status = passed;
  details = end;
}

abbrev calls : List Call
calls = start "run:1" 1 end ∷ start_op "op:1" fetch ∷ bundle page seen [] ∷ validated check ∷ []

abbrev catalog : MemoryCatalog
catalog = run_calls render calls empty

abbrev selection : DatasetSelection
selection = record { selector = exact_observation "obs:1"; role = some "input" }

abbrev strict : DatasetDefinition
strict = record {
  selections = selection ∷ [];
  metadata = end;
  constraints = record {
    same_run = true;
    max_observation_skew = some 0;
    complete_snapshots = false;
    validations = ("efloud:json", "1") ∷ [];
  };
}

abbrev the_manifest : Result DatasetManifest → DatasetManifest
the_manifest (ok m) = m
the_manifest (raise f) = record {
  dataset_id = "";
  content_identity = "";
  created_at = 0;
  definition = end;
  members = [];
  metadata = end;
}

abbrev manifest : DatasetDefinition → DatasetManifest
manifest d = the_manifest (resolve_dataset same_id text render (catalog_reader no_tree catalog) d 9)

strict_resolves :
    resolve_dataset same_id text render (catalog_reader no_tree catalog) strict 9
    ≡ ok (manifest strict)
unfolding resolve_dataset traverse sort lookup Dict.insert run_calls execute start_run
    start_operation check_producer record_content record_observation_bundle record_validation
    validation
strict_resolves = refl

abbrev input : DatasetMemberRecord
input = member_of (seen, some "input")

input_listed : Member input (manifest strict).members
unfolding resolve_dataset traverse sort lookup Dict.insert run_calls execute start_run
    start_operation check_producer record_content record_observation_bundle record_validation
    validation
input_listed = inl refl

resolve_dataset-Recorded_example :
    Distinct (map member_key (manifest strict).members)
    × Sorted member_leb (manifest strict).members
    × ((x : DatasetMemberRecord)
        → Member x (manifest strict).members
        → (s : DatasetSelection) × (o : ArtifactObservation) × Member s strict.selections
          × IsRecorded catalog o
          × (x ≡ member_of (o, s.role)))
resolve_dataset-Recorded_example =
    resolve_dataset-Recorded same_id text render no_tree catalog strict 9 (manifest strict)
      strict_resolves

dataset_artifact-resolve_example : dataset_artifact "source:s" (manifest strict).members ≡ ok input
dataset_artifact-resolve_example =
    dataset_artifact-resolve same_id text render (catalog_reader no_tree catalog) strict 9
      (manifest strict) input strict_resolves input_listed

resolve_dataset-validated_example :
    (v : ValidationResult) × (validation "sha256:aa" "efloud:json" "1" catalog ≡ some v)
    × (v.status ≡ passed)
resolve_dataset-validated_example =
    resolve_dataset-validated same_id text render no_tree catalog strict 9 (manifest strict)
      strict_resolves input ("efloud:json", "1") input_listed (inl refl)

resolve_dataset-same_run_example : Observed catalog input input (λ o p. o.run_id ≡ p.run_id)
resolve_dataset-same_run_example =
    resolve_dataset-same_run same_id text render no_tree catalog strict 9 (manifest strict)
      strict_resolves input input refl input_listed input_listed

resolve_dataset-skew_example :
    Observed catalog input input (λ o p. o.observed_at ≤ p.observed_at + 0)
resolve_dataset-skew_example =
    resolve_dataset-skew same_id text render no_tree catalog strict 9 (manifest strict)
      strict_resolves input input 0 refl input_listed input_listed

-- The state of the artifact at the time 6, by a named observation and by its key.
abbrev frozen : DatasetDefinition
frozen = record {
  selections = record { selector = latest_before "source:s" 6; role = none } ∷ [];
  metadata = end;
  constraints = record {
    same_run = true;
    max_observation_skew = none;
    complete_snapshots = false;
    validations = [];
  };
}

frozen_resolves :
    resolve_dataset same_id text render (catalog_reader no_tree catalog) frozen 9
    ≡ ok (manifest frozen)
unfolding resolve_dataset traverse sort lookup Dict.insert run_calls execute start_run
    start_operation check_producer record_content record_observation_bundle record_validation
    latest_state
frozen_resolves = refl

catalog-IsWellFormed : IsWellFormed catalog
catalog-IsWellFormed = run_calls-IsWellFormed render calls

resolve_dataset-run_calls_example :
    resolve_dataset same_id text render
      (catalog_reader no_tree (run_calls render (absence gone ∷ []) catalog))
      frozen
      9
    ≡ ok (manifest frozen)
resolve_dataset-run_calls_example =
    resolve_dataset-run_calls same_id text render no_tree 6 (absence gone ∷ []) catalog
      catalog-IsWellFormed (omega arith, tt) frozen 9 (manifest frozen) (omega arith, tt)
      (record { no_snapshots = refl; no_validations = refl }) frozen_resolves
