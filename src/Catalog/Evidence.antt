-- ===== src/Catalog/Evidence.antt =====
-- Contents, observations, absences and provenance of `MemoryCatalog`.
use efloud.Prelude.{ℕ, String, Bool, true, List, [], ◌++◌, Option, none, some, not, map}
use efloud.Prelude.{
  if◌then◌else◌, ◌==◌, string_eq, nat_eq, any, filter, unique, max_by, leb, ◌&&◌, ◌||◌,
}
use efloud.Prelude.Sort.{sort, stamp_leb}
use efloud.Prelude.Text.{str_leb}
use efloud.Prelude.Dict
use efloud.Prelude.Dict.{keys, values, lookup}
use efloud.Errors.{ok, raise, Fault}
use efloud.Models.{
  ObservationId, ArtifactKey, ContentRef, ArtifactObservation, ArtifactAbsence, ArtifactState,
  present, absent, ProvenanceEdge,
}
use efloud.Catalog.State.{MemoryCatalog, Outcome, done, fail}

-- The first size recorded for a content is kept; another size is a conflict.
unfoldable pub record_content : ContentRef → MemoryCatalog → Outcome
record_content content c = elim (lookup content.content_id c.contents) [
  | none ↦ done (record c { contents = Dict.insert content.content_id content c.contents })
  | some existing ↦
      if existing.byte_size == content.byte_size then done c else fail Fault.content_conflict c
]

-- `observation_id in self._observations or observation_id in self._absences`
abbrev pub is_recorded : ObservationId → MemoryCatalog → Bool
is_recorded id c = Dict.has id c.observations || Dict.has id c.absences

-- The checks of `record_observation_bundle` after the content is recorded, and its writes.
unfoldable pub insert_observation :
    ArtifactObservation → List ProvenanceEdge → MemoryCatalog → Outcome
insert_observation o edges c =
    if is_recorded o.observation_id c
    then fail Fault.observation_exists c
    else if any (λ edge. not (edge.output_observation_id == o.observation_id)) edges
    then fail Fault.provenance_mismatch c
    else done (record c {
      observations = Dict.insert o.observation_id o c.observations;
      provenance = Dict.insert o.observation_id edges c.provenance;
    })

-- The content stays recorded when a later check raises.
unfoldable pub record_observation_bundle :
    ContentRef → ArtifactObservation → List ProvenanceEdge → MemoryCatalog → Outcome
unfolding insert_observation
record_observation_bundle content o edges c =
    if not (o.content_id == content.content_id)
    then fail Fault.content_mismatch c
    else let (recorded, c') = record_content content c in
      elim recorded [ raise f ↦ fail f c' | ok _ ↦ insert_observation o edges c' ]

unfoldable pub record_absence : ArtifactAbsence → MemoryCatalog → Outcome
record_absence a c =
    if is_recorded a.observation_id c
    then fail Fault.observation_exists c
    else done (record c { absences = Dict.insert a.observation_id a c.absences })

abbrev pub observation_stamp : ArtifactObservation → ℕ × String
observation_stamp o = (o.observed_at, o.observation_id)

abbrev pub absence_stamp : ArtifactAbsence → ℕ × String
absence_stamp a = (a.observed_at, a.observation_id)

abbrev pub observation_leb : ArtifactObservation → ArtifactObservation → Bool
observation_leb a b = stamp_leb (observation_stamp a) (observation_stamp b)

abbrev pub absence_leb : ArtifactAbsence → ArtifactAbsence → Bool
absence_leb a b = stamp_leb (absence_stamp a) (absence_stamp b)

-- The observations of an artifact, the earliest first.
unfoldable pub observations_for : ArtifactKey → MemoryCatalog → List ArtifactObservation
observations_for key c =
    sort observation_leb (filter (λ o. o.artifact_key == key) (values c.observations))

-- `before is None or t <= before`
abbrev pub up_to : Option ℕ → ℕ → Bool
up_to none t = true
up_to (some before) t = leb t before

abbrev pub observation_candidate : ArtifactKey → Option ℕ → ArtifactObservation → Bool
observation_candidate key before o = o.artifact_key == key && up_to before o.observed_at

abbrev pub absence_candidate : ArtifactKey → Option ℕ → ArtifactAbsence → Bool
absence_candidate key before a = a.artifact_key == key && up_to before a.observed_at

unfoldable pub latest_observation :
    ArtifactKey → Option ℕ → MemoryCatalog → Option ArtifactObservation
latest_observation key before c =
    max_by observation_leb (filter (observation_candidate key before) (values c.observations))

-- `_latest_absence`
unfoldable pub latest_absence : ArtifactKey → Option ℕ → MemoryCatalog → Option ArtifactAbsence
latest_absence key before c =
    max_by absence_leb (filter (absence_candidate key before) (values c.absences))

-- The choice that `latest_state` makes between the two.
unfoldable pub later_state :
    Option ArtifactObservation → Option ArtifactAbsence → Option ArtifactState
later_state none none = none
later_state none (some a) = some (absent a)
later_state (some o) none = some (present o)
later_state (some o) (some a) =
    if stamp_leb (absence_stamp a) (observation_stamp o) then some (present o) else some (absent a)

unfoldable pub latest_state : ArtifactKey → Option ℕ → MemoryCatalog → Option ArtifactState
unfolding later_state latest_observation latest_absence
latest_state key before c =
    later_state (latest_observation key before c) (latest_absence key before c)

-- The keys of all artifacts ever observed, present or absent.
unfoldable pub artifact_keys : MemoryCatalog → List ArtifactKey
artifact_keys c = sort str_leb (
    unique (
      map (λ o. o.artifact_key) (values c.observations)
      ++ map (λ a. a.artifact_key) (values c.absences)))

abbrev pub edge_leb : ProvenanceEdge → ProvenanceEdge → Bool
edge_leb a b =
    if a.input_observation_id == b.input_observation_id
    then str_leb a.relationship b.relationship
    else str_leb a.input_observation_id b.input_observation_id

unfoldable pub provenance_inputs : ObservationId → MemoryCatalog → List ProvenanceEdge
provenance_inputs id c =
    sort edge_leb (elim (lookup id c.provenance) [ none ↦ [] | some edges ↦ edges ])
