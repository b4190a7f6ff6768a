-- ===== src/Datasets/Selectors.antt =====
-- dataset_selectors.py and the selectors of datasets.py.
use efloud.Prelude.{ℕ, String, Bool, true, false, List, [], ◌∷◌, Option, none, some, not, ◌&&◌}
use efloud.Prelude.{
  if◌then◌else◌, ◌==◌, string_eq, nat_eq, option_eq, is_some, all, any, length, ltb,
}
use efloud.Errors.{Result, ok, raise, Fault, ◌>>=◌, traverse}
use efloud.Json.{
  Json, JsonObject, null, int, str, end, field, get, put_some, string_or_none, string_array,
  or_null, elements, arr,
}
use efloud.Models.{
  SourceId, ObservationId, SnapshotId, ArtifactKey, ArtifactObservation, SourceSnapshot,
  SourceDefinitionRevision,
}
use efloud.Payloads.{int_option}
use efloud.Planning.{sorted_set}
use efloud.Catalog.Evidence.{up_to}
use efloud.Datasets.Snapshots.{
  DatasetRepository, present_of, concat_map, raise_if, from_option, snapshot_observations,
}

-- `SourceSelection`, constructed with finite times.
pub record SourceSelection : Type 0 where
  pub source_id : Option SourceId
  pub role : Option String
  pub tags : List String
  pub prefix : String
  pub after : Option ℕ
  pub before : Option ℕ

-- The selectors of both modules.
pub data DatasetSelector : Type 0 where
  exact_observation : ObservationId → DatasetSelector
  latest : ArtifactKey → DatasetSelector
  latest_before : ArtifactKey → ℕ → DatasetSelector
  latest_all : Option ℕ → DatasetSelector
  exact_source_snapshot : SnapshotId → DatasetSelector
  latest_complete_source_snapshot : SourceId → Option ℕ → DatasetSelector
  source_selection : SourceSelection → DatasetSelector

-- `after is not None and t < after`
abbrev pub is_earlier : Option ℕ → ℕ → Bool
is_earlier none t = false
is_earlier (some after) t = ltb t after

-- `after is not None and before is not None and after > before`
abbrev pub is_reversed : Option ℕ → Option ℕ → Bool
is_reversed (some after) (some before) = ltb before after
is_reversed _ _ = false

abbrev pub first_revision :
    Option String → List SourceDefinitionRevision → Option SourceDefinitionRevision
first_revision none rs = none
first_revision (some id) [] = none
first_revision (some id) (r ∷ rs) =
    if r.revision_id == id then some r else first_revision (some id) rs

abbrev pub first_some {ℓ} : {A : Type ℓ} → (A → Bool) → List A → Option A
first_some p [] = none
first_some p (x ∷ xs) = if p x then some x else first_some p xs

-- `definition.get("tags", [])`, and whether it lists a tag.
abbrev pub lists_tag : Option Json → String → Bool
lists_tag none tag = false
lists_tag (some (arr xs)) tag = any (λ v. string_or_none (some v) == some tag) (elements xs)
lists_tag (some _) tag = false

-- `isinstance(tags, list)`, where a missing key is an empty list.
abbrev pub is_tag_list : Option Json → Bool
is_tag_list none = true
is_tag_list (some (arr xs)) = true
is_tag_list (some _) = false

abbrev pub matches_definition : SourceSelection → JsonObject → Bool
matches_definition s definition =
    (elim s.role [ none ↦ true | some role ↦ string_or_none (get "role" definition) == some role ])
    && is_tag_list (get "tags" definition)
    && all (lists_tag (get "tags" definition)) s.tags

-- `text.startswith(prefix)`
unfoldable pub starts_with : String → String → Bool
starts_with String.[] text = true
starts_with (String.◌∷◌ c p) String.[] = false
starts_with (String.◌∷◌ c p) (String.◌∷◌ d t) =
    let rest = starts_with p t in (String.◌∷◌ c String.[] == String.◌∷◌ d String.[]) && rest

module _ (equal : ArtifactObservation → ArtifactObservation → Bool) (str_json : Json → String)
    (repository : DatasetRepository) where
  -- The revision of the source definition under which an observation was made.
  abbrev pub observed_revision : ArtifactObservation → Option SourceDefinitionRevision
  observed_revision o = elim o.source_id [
    | none ↦ none
    | some source_id ↦ elim (repository.source source_id) [
      | none ↦ none
      | some source ↦
          first_revision (string_or_none (get "source_definition_revision_id" o.metadata))
            source.revisions
    ]
  ]

  -- `source_id is not None and observation.source_id != source_id`
  abbrev pub of_other_source : SourceSelection → ArtifactObservation → Bool
  of_other_source s o = elim s.source_id [
    | none ↦ false
    | some source_id ↦ not (o.source_id == some source_id)
  ]

  abbrev pub needs_no_definition : SourceSelection → Bool
  needs_no_definition s = not (is_some s.role) && length s.tags == 0

  -- `SourceSelection._matches`
  unfoldable pub selection_matches : SourceSelection → ArtifactObservation → Result Bool
  selection_matches s o =
      if of_other_source s o
      then ok false
      else if is_earlier s.after o.observed_at
      then ok false
      else if needs_no_definition s
      then ok true
      else elim (observed_revision o) [
        | none ↦ raise Fault.unknown_source_definition
        | some revision ↦ ok (matches_definition s revision.definition)
      ]

  -- The observation of one artifact that the selection takes, if any.
  abbrev pub selected_state : SourceSelection → ArtifactKey → Result (List ArtifactObservation)
  selected_state s key =
      if starts_with s.prefix key
      then elim (present_of (repository.latest_state key s.before)) [
        | none ↦ ok []
        | some o ↦ do matched ← selection_matches s o; ok (if matched then o ∷ [] else [])
      ]
      else ok []

  -- `SourceSelection.resolve`
  unfoldable pub resolve_selection : SourceSelection → Result (List ArtifactObservation)
  unfolding selection_matches starts_with
  resolve_selection s = do
    ordered ← raise_if (is_reversed s.after s.before) Fault.interval_reversed
    states ← traverse (selected_state s) repository.artifact_keys
    ok (concat_map (λ os. os) states)

  -- `LatestCompleteSourceSnapshot.snapshot`
  unfoldable pub complete_snapshot : SourceId → Option ℕ → Result SourceSnapshot
  complete_snapshot source_id before = from_option Fault.no_complete_snapshot (
      first_some (λ s. s.complete && up_to before s.observed_at)
        (repository.source_snapshots_for source_id))

  abbrev pub resolve_snapshot : SnapshotId → Result (List ArtifactObservation)
  resolve_snapshot id = do
    snapshot ← from_option Fault.unknown_snapshot (repository.source_snapshot id)
    snapshot_observations equal str_json repository snapshot

  -- The state of each artifact that is present.
  abbrev pub present_states : Option ℕ → List ArtifactKey → List ArtifactObservation
  present_states before [] = []
  present_states before (key ∷ keys) =
      let rest = present_states before keys in
      elim (present_of (repository.latest_state key before)) [ none ↦ rest | some o ↦ o ∷ rest ]

  abbrev pub one : Fault → Option ArtifactObservation → Result (List ArtifactObservation)
  one fault none = raise fault
  one fault (some o) = ok (o ∷ [])

  -- `resolve` of each selector.
  unfoldable pub resolve : DatasetSelector → Result (List ArtifactObservation)
  unfolding resolve_selection complete_snapshot snapshot_observations
  resolve (exact_observation id) = one Fault.unknown_observation (repository.observation id)
  resolve (latest key) = one Fault.artifact_absent (present_of (repository.latest_state key none))
  resolve (latest_before key timestamp) =
      one Fault.artifact_absent (present_of (repository.latest_state key (some timestamp)))
  resolve (latest_all before) = ok (present_states before repository.artifact_keys)
  resolve (exact_source_snapshot id) = resolve_snapshot id
  resolve (latest_complete_source_snapshot source_id before) = do
    snapshot ← complete_snapshot source_id before
    snapshot_observations equal str_json repository snapshot
  resolve (source_selection s) = resolve_selection s

abbrev pub or_null_int : Option ℕ → Json
or_null_int none = null
or_null_int (some n) = int n

-- `to_dict` of each selector.
unfoldable pub selector_to_dict : DatasetSelector → JsonObject
selector_to_dict (exact_observation id) =
    field "kind" (str "exact") (field "observation_id" (str id) end)
selector_to_dict (latest key) = field "kind" (str "latest") (field "artifact_key" (str key) end)
selector_to_dict (latest_before key timestamp) =
    field "kind" (str "latest-before")
      (field "artifact_key" (str key) (field "timestamp" (int timestamp) end))
selector_to_dict (latest_all before) =
    put_some "before" (int_option before) (field "kind" (str "latest-all") end)
selector_to_dict (exact_source_snapshot id) =
    field "kind" (str "source-snapshot") (field "snapshot_id" (str id) end)
selector_to_dict (latest_complete_source_snapshot source_id before) =
    field "kind" (str "latest-complete-source-snapshot") (
      field "source_id" (str source_id) (
        field "before" (or_null_int before)
          (field "time_basis" (str "repository-observation") end)))
selector_to_dict (source_selection s) = field "kind" (str "source-selection") (
    field "source_id" (or_null s.source_id) (
      field "role_filter" (or_null s.role) (
        field "tags" (string_array (sorted_set s.tags)) (
          field "prefix" (str s.prefix) (
            field "after" (or_null_int s.after) (
              field "before" (or_null_int s.before)
                (field "time_basis" (str "repository-observation") end)))))))
