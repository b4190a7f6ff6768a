-- ===== src/Datasets/Resolve.antt =====
-- datasets.py: definitions, manifests, and the resolution of a definition to a manifest.
use efloud.Prelude.{ℕ, String, Bool, List, [], ◌∷◌, Option, none, some, not, map, ◌&&◌, ◌||◌}
use efloud.Prelude.{if◌then◌else◌, ◌==◌, string_eq, nat_eq, all, length, contains, is_some}
use efloud.Prelude.Sort.{sort}
use efloud.Prelude.Text.{str_leb}
use efloud.Errors.{Result, ok, raise, Fault, ◌>>=◌, traverse}
use efloud.Json.{
  Json, JsonObject, str, arr, obj, end, field, put, put_some, array, string_array, or_null,
  str_option,
}
use efloud.Models.{
  ContentId, ArtifactKey, ArtifactObservation, SourceSnapshot, SnapshotId, stable_id,
}
use efloud.Payloads.{snapshot_to_dict}
use efloud.Planning.{sorted_set}
use efloud.Records.{DatasetMemberRecord, DatasetRecord, canonical_dataset}
use efloud.Datasets.Snapshots.{DatasetRepository, concat_map, raise_if}
use efloud.Datasets.Selectors.{
  DatasetSelector, exact_source_snapshot, latest_complete_source_snapshot, complete_snapshot,
  resolve, selector_to_dict,
}
use efloud.Datasets.Constraints.{
  DatasetConstraints, ConstraintResult, constraints_to_dict, check_constraints,
}

pub record DatasetSelection : Type 0 where
  pub selector : DatasetSelector
  pub role : Option String

-- `DatasetSelection.to_dict`
unfoldable pub selection_to_dict : DatasetSelection → Json
unfolding selector_to_dict
selection_to_dict s = obj (put_some "role" (str_option s.role) (selector_to_dict s.selector))

pub record DatasetDefinition : Type 0 where
  pub selections : List DatasetSelection
  pub metadata : JsonObject
  pub constraints : DatasetConstraints

-- `self.constraints != DatasetConstraints()`
abbrev pub is_constrained : DatasetConstraints → Bool
is_constrained c =
    c.same_run
    || is_some c.max_observation_skew
    || c.complete_snapshots
    || not (length c.validations == 0)

-- `DatasetDefinition.to_dict`
unfoldable pub definition_to_dict : DatasetDefinition → JsonObject
unfolding selection_to_dict constraints_to_dict
definition_to_dict d =
    put_some "constraints"
      (if is_constrained d.constraints
        then some (obj (constraints_to_dict d.constraints))
        else none)
      (field "selections" (arr (array (map selection_to_dict d.selections)))
        (field "metadata" (obj d.metadata) end))

pub record DatasetManifest : Type 0 where
  pub dataset_id : String
  pub content_identity : String
  pub created_at : ℕ
  pub definition : JsonObject
  pub members : List DatasetMemberRecord
  pub metadata : JsonObject

-- `DatasetManifest.to_record`, which constructs a `DatasetRecord`.
unfoldable pub manifest_to_record : (Json → String) → DatasetManifest → Result DatasetRecord
unfolding canonical_dataset
manifest_to_record digest m = canonical_dataset digest (record {
  dataset_id = m.dataset_id;
  content_identity = m.content_identity;
  created_at = m.created_at;
  definition = m.definition;
  metadata = m.metadata;
  members = m.members;
  specifications = [];
  specification_id = "";
})

-- `DatasetManifest.from_record`
unfoldable pub manifest_from_record : DatasetRecord → DatasetManifest
manifest_from_record r = record {
  dataset_id = r.dataset_id;
  content_identity = r.content_identity;
  created_at = r.created_at;
  definition = r.definition;
  members = r.members;
  metadata = r.metadata;
}

-- `ImmutableDataset.artifact`
unfoldable pub dataset_artifact :
    ArtifactKey → List DatasetMemberRecord → Result DatasetMemberRecord
dataset_artifact key [] = raise Fault.not_a_member
dataset_artifact key (m ∷ ms) = if m.artifact_key == key then ok m else dataset_artifact key ms

-- `ImmutableDataset.verify`, from the repository's `verify_content`.
unfoldable pub verify_dataset : (ContentId → Bool) → DatasetManifest → Bool
verify_dataset verify_content m = all (λ member. verify_content member.content_id) m.members

-- An observation with the role of its selection.
abbrev pub Resolved : Type 0
Resolved = ArtifactObservation × Option String

abbrev pub role_or_empty : Option String → String
role_or_empty none = ""
role_or_empty (some role) = role

-- The order of the sort key: artifact key, role and observation identifier.
abbrev pub resolved_leb : Resolved → Resolved → Bool
resolved_leb (o, r) (p, q) =
    if o.artifact_key == p.artifact_key
    then if role_or_empty r == role_or_empty q
      then str_leb o.observation_id p.observation_id
      else str_leb (role_or_empty r) (role_or_empty q)
    else str_leb o.artifact_key p.artifact_key

abbrev pub resolved_key : Resolved → ArtifactKey
resolved_key (o, role) = o.artifact_key

abbrev pub member_of : Resolved → DatasetMemberRecord
member_of (o, role) = record {
  artifact_key = o.artifact_key;
  observation_id = o.observation_id;
  content_id = o.content_id;
  role = role;
}

-- The loop over `resolved`, which keeps the set of the artifacts that it has seen.
unfoldable pub members_of : List ArtifactKey → List Resolved → Result (List DatasetMemberRecord)
members_of seen [] = ok []
members_of seen (x ∷ xs) =
    let rest = members_of (resolved_key x ∷ seen) xs in
    if contains seen (resolved_key x)
    then raise Fault.artifact_resolved_twice
    else do members ← rest; ok (member_of x ∷ members)

abbrev pub identity_entry : DatasetMemberRecord → Json
identity_entry m = obj (
    field "artifact_key" (str m.artifact_key)
      (field "observation_id" (str m.observation_id) (field "role" (or_null m.role) end)))

abbrev pub content_entry : DatasetMemberRecord → Json
content_entry m = obj (
    field "artifact_key" (str m.artifact_key)
      (field "content_id" (str m.content_id) (field "role" (or_null m.role) end)))

-- What a selection resolves to, and the snapshot that it is pinned to.
pub record Selected : Type 0 where
  pub snapshot_ids : List SnapshotId
  pub resolved : List Resolved

abbrev pub pinned_ids : DatasetSelector → List SnapshotId
pinned_ids (exact_source_snapshot id) = id ∷ []
pinned_ids _ = []

abbrev pub existing_snapshots : (SnapshotId → Option SourceSnapshot) → List SnapshotId → List Json
existing_snapshots find [] = []
existing_snapshots find (id ∷ ids) =
    let rest = existing_snapshots find ids in
    elim (find id) [ none ↦ rest | some s ↦ snapshot_to_dict s ∷ rest ]

module _ (equal : ArtifactObservation → ArtifactObservation → Bool) (str_json : Json → String)
    (digest : Json → String) (repository : DatasetRepository) where
  -- A selector of the latest complete snapshot becomes one of that snapshot.
  abbrev pub pinned : DatasetSelector → Result DatasetSelector
  pinned (latest_complete_source_snapshot source_id before) = do
    s ← complete_snapshot equal str_json repository source_id before
    ok (exact_source_snapshot s.snapshot_id)
  pinned selector = ok selector

  -- The body of the loop over the selections.
  abbrev pub select : DatasetSelection → Result Selected
  select s = do
    selector ← pinned s.selector
    observations ← resolve equal str_json repository selector
    ok (record {
      snapshot_ids = pinned_ids selector;
      resolved = map (λ o. (o, s.role)) observations;
    })

  abbrev pub resolution : List SnapshotId → List ConstraintResult → Json
  resolution snapshot_ids results = obj (
      field "snapshot_ids" (string_array (sorted_set snapshot_ids)) (
        field "constraint_results" (arr (array (map (λ r. obj r.payload) results))) (
          field "snapshots"
            (arr (array (existing_snapshots repository.source_snapshot (sorted_set snapshot_ids))))
            end)))

  -- `not resolved and constraints.complete_snapshots and not snapshot_ids`
  abbrev pub lacks_evidence : DatasetDefinition → List Resolved → List SnapshotId → Bool
  lacks_evidence d resolved snapshot_ids =
      (length resolved == 0) && d.constraints.complete_snapshots && (length snapshot_ids == 0)

  -- `resolve_dataset`, at the time `created_at`.
  unfoldable pub resolve_dataset : DatasetDefinition → ℕ → Result DatasetManifest
  unfolding resolve complete_snapshot members_of check_constraints definition_to_dict
      snapshot_to_dict
  resolve_dataset d created_at = do
    selected ← traverse select d.selections
    let snapshot_ids = concat_map (λ s. s.snapshot_ids) selected
    let resolved = sort resolved_leb (concat_map (λ s. s.resolved) selected)
    members ← members_of [] resolved
    evident ← raise_if (lacks_evidence d resolved snapshot_ids) Fault.constraints_failed
    results ← check_constraints equal str_json repository d.constraints (map (λ x. x.0) resolved)
    ok (record {
      dataset_id = stable_id digest "dataset" (arr (array (map identity_entry members)));
      content_identity =
          stable_id digest "dataset-content" (arr (array (map content_entry members)));
      created_at = created_at;
      definition = definition_to_dict d;
      members = members;
      metadata = put "resolution" (resolution snapshot_ids results) d.metadata;
    })
