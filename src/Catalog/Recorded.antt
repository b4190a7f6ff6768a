-- ===== src/Catalog/Recorded.antt =====
-- Contents, observations, absences and provenance: the invariant of their tables, and what keeps it.
use efloud.Prelude.{true, false, List, none, some, ◌≡◌, refl, arith, ◌⊎◌, inl, inr, not}
use efloud.Prelude.{◌==◌, string_eq, nat_eq, is_some, Member, any, any-false_iff, Distinct}
use efloud.Prelude.{Bool-cases, Option-cases}
use efloud.Prelude.Dict
use efloud.Prelude.Dict.{keys, lookup, lookup-insert}
use efloud.Prelude.Keyed.{Keyed, insert-Keyed}
use efloud.Errors.{Fault, ok, Result-cases}
use efloud.Models.{
  ContentId, ObservationId, ContentRef, ArtifactObservation, ArtifactAbsence, ProvenanceEdge,
}
use efloud.Catalog.State.{MemoryCatalog, done, fail, empty}
use efloud.Catalog.Evidence.{
  record_content, is_recorded, insert_observation, record_observation_bundle, record_absence,
}

abbrev pub content_key : ContentRef → ContentId
content_key r = r.content_id

abbrev pub observation_key : ArtifactObservation → ObservationId
observation_key o = o.observation_id

abbrev pub absence_key : ArtifactAbsence → ObservationId
absence_key a = a.observation_id

pub record IsEvidence (c : MemoryCatalog) : Type 0 where
  pub contents_keyed : Keyed content_key c.contents
  pub observations_keyed : Keyed observation_key c.observations
  pub observations_distinct : Distinct (keys c.observations)
  pub absences_keyed : Keyed absence_key c.absences
  pub absences_distinct : Distinct (keys c.absences)
  -- An identifier names an observation or an absence, not both.
  pub exclusive :
      (id : ObservationId)
      → is_some (lookup id c.observations) ≡ true
      → is_some (lookup id c.absences) ≡ false
  -- The content of an observation is recorded.
  pub content_known :
      (id : ObservationId) (o : ArtifactObservation)
      → lookup id c.observations ≡ some o
      → is_some (lookup o.content_id c.contents) ≡ true
  -- Provenance is kept for the observations and for nothing else.
  pub provenance_known :
      (id : ObservationId) → is_some (lookup id c.provenance) ≡ is_some (lookup id c.observations)
  -- An edge is kept with the observation that it leads to.
  pub provenance_output :
      (id : ObservationId) (edges : List ProvenanceEdge) (edge : ProvenanceEdge)
      → lookup id c.provenance ≡ some edges
      → Member edge edges
      → edge.output_observation_id ≡ id

pub empty-IsEvidence : IsEvidence empty
unfolding lookup
empty-IsEvidence = record {
  contents_keyed = tt;
  observations_keyed = tt;
  observations_distinct = tt;
  absences_keyed = tt;
  absences_distinct = tt;
  exclusive = λ id h. refl;
  content_known = λ id o h. ground arith;
  provenance_known = λ id. refl;
  provenance_output = λ id edges edge h. ground arith;
}

abbrev pub add_content : ContentRef → MemoryCatalog → MemoryCatalog
add_content r c = record c { contents = Dict.insert r.content_id r c.contents }

-- A content is new, or is there with the same size, or conflicts.
pub record_content_cases :
    (r : ContentRef) (c : MemoryCatalog)
    → (record_content r c ≡ fail Fault.content_conflict c)
      ⊎ ((is_some (lookup r.content_id c.contents) ≡ true) × (record_content r c ≡ done c))
      ⊎ ((lookup r.content_id c.contents ≡ none) × (record_content r c ≡ done (add_content r c)))
unfolding record_content
record_content_cases r c = elim (Option-cases (lookup r.content_id c.contents)) [
  | inl fresh ↦ inr (inr (fresh, ground arith))
  | inr (old, found) ↦ elim (Bool-cases (old.byte_size == r.byte_size)) [
    | inl same ↦ inr (inl (ground arith, ground arith))
    | inr other ↦ inl (ground arith)
  ]
]

abbrev pub add_observation :
    ArtifactObservation → List ProvenanceEdge → MemoryCatalog → MemoryCatalog
add_observation o edges c = record c {
  observations = Dict.insert o.observation_id o c.observations;
  provenance = Dict.insert o.observation_id edges c.provenance;
}

-- The identifier is new, the content is recorded, and the edges lead to the observation.
pub record CanObserve (c : MemoryCatalog) (o : ArtifactObservation) (edges : List ProvenanceEdge)
    : Type 0 where
  pub unobserved : is_some (lookup o.observation_id c.observations) ≡ false
  pub unrecorded : is_some (lookup o.observation_id c.absences) ≡ false
  pub leading : any (λ edge. not (edge.output_observation_id == o.observation_id)) edges ≡ false

pub insert_observation_cases :
    (o : ArtifactObservation) (edges : List ProvenanceEdge) (c : MemoryCatalog)
    → ((f : Fault) × (insert_observation o edges c ≡ fail f c))
      ⊎ (CanObserve c o edges × (insert_observation o edges c ≡ done (add_observation o edges c)))
unfolding insert_observation
insert_observation_cases o edges c = elim (Bool-cases (is_recorded o.observation_id c)) [
  | inl old ↦ inl (Fault.observation_exists, ground arith)
  | inr fresh ↦
      elim (Bool-cases (any (λ edge. not (edge.output_observation_id == o.observation_id)) edges)) [
        | inl stray ↦ inl (Fault.provenance_mismatch, ground arith)
        | inr leading ↦ inr (
          record { unobserved = ground arith; unrecorded = ground arith; leading = leading },
          ground arith,
        )
      ]
]

module _ (c : MemoryCatalog) (l : IsEvidence c) where
  added_content-IsEvidence : (r : ContentRef) → IsEvidence (add_content r c)
  added_content-IsEvidence r = record {
    contents_keyed = insert-Keyed content_key r c.contents l.contents_keyed;
    observations_keyed = l.observations_keyed;
    observations_distinct = l.observations_distinct;
    absences_keyed = l.absences_keyed;
    absences_distinct = l.absences_distinct;
    exclusive = l.exclusive;
    content_known = λ id o h. rw lookup-insert (ground (arith, l.content_known id o h));
    provenance_known = l.provenance_known;
    provenance_output = l.provenance_output;
  }

  pub record_content-IsEvidence : (r : ContentRef) → IsEvidence (record_content r c).1
  record_content-IsEvidence r = elim (record_content_cases r c) [
    | inl e ↦ rw e l
    | inr (inl (old, e)) ↦ rw e l
    | inr (inr (fresh, e)) ↦ rw e (added_content-IsEvidence r)
  ]

  added_observation-IsEvidence :
      (o : ArtifactObservation) (edges : List ProvenanceEdge)
      → is_some (lookup o.content_id c.contents) ≡ true
      → CanObserve c o edges
      → IsEvidence (add_observation o edges c)
  added_observation-IsEvidence o edges there k = record {
    contents_keyed = l.contents_keyed;
    observations_keyed = insert-Keyed observation_key o c.observations l.observations_keyed;
    observations_distinct =
        Dict.insert-Distinct o.observation_id o c.observations l.observations_distinct;
    absences_keyed = l.absences_keyed;
    absences_distinct = l.absences_distinct;
    exclusive = λ id.
        rw lookup-insert
          (ground (arith, l.exclusive id, k.unrecorded, string_eq.beq_iff id o.observation_id));
    content_known = λ id p. rw lookup-insert (ground (arith, l.content_known id p));
    provenance_known = λ id. simp lookup-insert (ground (arith, l.provenance_known id));
    provenance_output = λ id es edge. rw lookup-insert (λ h m. ground (
      arith,
      l.provenance_output id es edge,
      string_eq.beq_iff id o.observation_id,
      string_eq.beq_iff edge.output_observation_id o.observation_id,
      (any-false_iff (λ x. not (x.output_observation_id == o.observation_id)) edges).0 k.leading
          edge,
    ));
  }

  insert_observation-IsEvidence :
      (o : ArtifactObservation) (edges : List ProvenanceEdge)
      → is_some (lookup o.content_id c.contents) ≡ true
      → IsEvidence (insert_observation o edges c).1
  insert_observation-IsEvidence o edges there = elim (insert_observation_cases o edges c) [
    | inl (f, e) ↦ rw e l
    | inr (k, e) ↦ rw e (added_observation-IsEvidence o edges there k)
  ]

  pub record_absence-IsEvidence : (a : ArtifactAbsence) → IsEvidence (record_absence a c).1
  unfolding record_absence
  record_absence-IsEvidence a = elim (Bool-cases (is_recorded a.observation_id c)) [
    | inl old ↦ rw old l
    | inr fresh ↦ rw fresh (record {
      contents_keyed = l.contents_keyed;
      observations_keyed = l.observations_keyed;
      observations_distinct = l.observations_distinct;
      absences_keyed = insert-Keyed absence_key a c.absences l.absences_keyed;
      absences_distinct = Dict.insert-Distinct a.observation_id a c.absences l.absences_distinct;
      exclusive = λ id.
          rw lookup-insert (ground (arith, l.exclusive id, string_eq.beq_iff id a.observation_id));
      content_known = l.content_known;
      provenance_known = l.provenance_known;
      provenance_output = l.provenance_output;
    })
  ]

-- What `record_content` leaves when it does not raise.
recorded_content :
    (r : ContentRef) (c : MemoryCatalog)
    → (record_content r c).0 ≡ ok tt
    → is_some (lookup r.content_id (record_content r c).1.contents) ≡ true
recorded_content r c h = elim (record_content_cases r c) [
  | inl e ↦ absurd (ground arith)
  | inr (inl (old, e)) ↦ rw e old
  | inr (inr (fresh, e)) ↦ rw e (rw Dict.lookup-insert_self)
]

pub bundle_cases :
    (r : ContentRef) (o : ArtifactObservation) (edges : List ProvenanceEdge) (c : MemoryCatalog)
    → (record_observation_bundle r o edges c ≡ fail Fault.content_mismatch c)
      ⊎ ((f : Fault) × (record_observation_bundle r o edges c ≡ fail f (record_content r c).1))
      ⊎ ((o.content_id ≡ r.content_id)
          × ((record_content r c).0 ≡ ok tt)
          × (record_observation_bundle r o edges c
              ≡ insert_observation o edges (record_content r c).1))
unfolding record_observation_bundle
bundle_cases r o edges c = elim (Bool-cases (o.content_id == r.content_id)) [
  | inr other ↦ inl (ground arith)
  | inl same ↦ inr (elim (Result-cases (record_content r c).0) [
    | inl (f, bad) ↦ inl (f, ground arith)
    | inr (u, good) ↦ inr ((string_eq.beq_iff o.content_id r.content_id).0 same, good, ground arith)
  ])
]

module _ (c : MemoryCatalog) (l : IsEvidence c) where
  pub bundle-IsEvidence :
      (r : ContentRef) (o : ArtifactObservation) (edges : List ProvenanceEdge)
      → IsEvidence (record_observation_bundle r o edges c).1
  bundle-IsEvidence r o edges = elim (bundle_cases r o edges c) [
    | inl e ↦ rw e l
    | inr (inl (f, e)) ↦ rw e (record_content-IsEvidence c l r)
    | inr (inr (same, good, e)) ↦ rw e (
        insert_observation-IsEvidence (record_content r c).1 (record_content-IsEvidence c l r) o
          edges (rw same (recorded_content r c good)))
  ]
