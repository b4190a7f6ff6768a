-- ===== src/Datasets/Reader.antt =====
-- The in-memory catalog as the repository that datasets are resolved in. The repository passes
-- these calls on to its catalog; the entries of a tree come from its tree store.
use efloud.Prelude.{String, List, Option, none, some, ◌≡◌, arith}
use efloud.Prelude.{◌==◌, string_eq, filter, Member, Member-filter}
use efloud.Prelude.Sort.{Member-sort, max_by-IsMax, stamp_leb-IsOrder, IsOrder-key}
use efloud.Prelude.Dict.{lookup, values, Member-values_of_lookup}
use efloud.Models.{ArtifactObservation, ArtifactAbsence, present}
use efloud.Catalog.State.{MemoryCatalog}
use efloud.Catalog.Evidence.{
  observations_for, latest_state, latest_observation, latest_absence, later_state, artifact_keys,
  observation_leb, observation_candidate, observation_stamp,
}
use efloud.Catalog.Snapshots.{validation, ordered_snapshots}
use efloud.Datasets.Snapshots.{DatasetRepository, TreeEntry}
use efloud.Datasets.Recorded.{Returns}

-- `source_snapshots_for(source_id, limit=None)` lists all snapshots of the source.
abbrev pub catalog_reader : (String → List TreeEntry) → MemoryCatalog → DatasetRepository
catalog_reader tree_entries c = record {
  observation = λ id. lookup id c.observations;
  latest_state = λ key before. latest_state key before c;
  artifact_keys = artifact_keys c;
  observations_for = λ key. observations_for key c;
  source_snapshot = λ id. lookup id c.snapshots;
  source_snapshots_for = λ source_id. ordered_snapshots source_id c;
  validation = λ content_id validator version. validation content_id validator version c;
  source = λ id. lookup id c.sources;
  tree_entries = tree_entries;
}

later_state-present :
    (x : Option ArtifactObservation) (y : Option ArtifactAbsence) (o : ArtifactObservation)
    → later_state x y ≡ some (present o)
    → x ≡ some o
unfolding later_state
later_state-present none none o h = cc
later_state-present none (some a) o h = cc
later_state-present (some x) none o h = cc
later_state-present (some x) (some a) o h = ground arith

abbrev pub IsRecorded : MemoryCatalog → ArtifactObservation → Type 0
IsRecorded c o = Member o (values c.observations)

pub catalog_reader-Returns :
    (tree_entries : String → List TreeEntry) (c : MemoryCatalog)
    → Returns (catalog_reader tree_entries c) (IsRecorded c)
unfolding latest_state latest_observation observations_for
catalog_reader-Returns tree_entries c = record {
  observation = λ id o h. Member-values_of_lookup id o c.observations h;
  state = λ key before o h.
      let e =
        later_state-present (latest_observation key before c) (latest_absence key before c) o h in
      let best =
        max_by-IsMax (IsOrder-key stamp_leb-IsOrder observation_stamp)
          (filter (observation_candidate key before) (values c.observations)) o e in
      ((Member-filter (observation_candidate key before) o (values c.observations)).0 best.there).0;
  listed = λ key o m.
      ((Member-filter (λ o. o.artifact_key == key) o (values c.observations)).0
        ((Member-sort observation_leb o _).0 m)).0;
}
