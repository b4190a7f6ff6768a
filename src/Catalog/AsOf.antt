-- ===== src/Catalog/AsOf.antt =====
-- `latest_state` of catalog/memory.py as of a time, while calls go on.
use mathlib.Core.List.{append-nil}
use efloud.Prelude.{ℕ, String, List, [], ◌∷◌, false, Option, none, some, ◌≡◌, refl, arith}
use efloud.Prelude.{inl, inr, ◌∙◌, ◌<◌}
use efloud.Prelude.{string_eq, filter, filter-append, All, Bool-cases, is_some}
use efloud.Prelude.Dict
use efloud.Prelude.Dict.{values, lookup}
use efloud.Json.{Json}
use efloud.Models.{ArtifactKey, ArtifactObservation, ArtifactAbsence, ContentRef, ProvenanceEdge}
use efloud.Catalog.State.{MemoryCatalog}
use efloud.Catalog.Evidence.{
  observation_candidate, absence_candidate, latest_state, record_content, insert_observation,
  record_observation_bundle, record_absence, is_recorded,
}
use efloud.Catalog.Recorded.{record_content_cases, bundle_cases, insert_observation_cases}
use efloud.Catalog.Frames.{
  SameEvidence, start_run_frame, finish_run_frame, start_operation_frame, finish_operation_frame,
  record_validation_frame, record_source_snapshot_frame, register_source_frame,
  record_dataset_frame,
}
use efloud.Catalog.Calls.{
  Call, register, start, finish, start_op, finish_op, content, bundle, absence, validated, snapshot,
  dataset, execute, run_calls,
}

-- A call that records nothing at or before the time.
abbrev pub IsAfter : ℕ → Call → Type 0
IsAfter t (bundle r o edges) = t < o.observed_at
IsAfter t (absence a) = t < a.observed_at
IsAfter t _ = Unit

module _ (key : ArtifactKey) (t : ℕ) where
  -- The candidates of `latest_state` as of the time are the same.
  record SameView (c d : MemoryCatalog) : Type 0 where
    observations :
        filter (observation_candidate key (some t)) (values c.observations)
        ≡ filter (observation_candidate key (some t)) (values d.observations)
    absences :
        filter (absence_candidate key (some t)) (values c.absences)
        ≡ filter (absence_candidate key (some t)) (values d.absences)

  latest_state-SameView :
      (c d : MemoryCatalog)
      → SameView c d
      → latest_state key (some t) d ≡ latest_state key (some t) c
  unfolding latest_state
  latest_state-SameView c d v = rw (v.observations, v.absences)

  SameView-of_same : (c d : MemoryCatalog) → SameEvidence c d → SameView c d
  SameView-of_same c d s = record { observations = rw s.observations; absences = rw s.absences }

  SameView-refl : (c : MemoryCatalog) → SameView c c
  SameView-refl c = record { observations = refl; absences = refl }

  SameView-trans : (c d e : MemoryCatalog) → SameView c d → SameView d e → SameView c e
  SameView-trans c d e v w = record {
    observations = v.observations ∙ w.observations;
    absences = v.absences ∙ w.absences;
  }

  record_content-SameView : (c : MemoryCatalog) (r : ContentRef) → SameView c (record_content r c).1
  record_content-SameView c r = elim (record_content_cases r c) [
    | inl e ↦ rw e (SameView-refl c)
    | inr (inl (old, e)) ↦ rw e (SameView-refl c)
    | inr (inr (fresh, e)) ↦ rw e (record { observations = refl; absences = refl })
  ]

  later_observation :
      (o : ArtifactObservation) → t < o.observed_at → observation_candidate key (some t) o ≡ false
  later_observation o h = ground arith

  later_absence :
      (a : ArtifactAbsence) → t < a.observed_at → absence_candidate key (some t) a ≡ false
  later_absence a h = ground arith

  not_found {ℓ} : {A : Type ℓ} (x : Option A) → is_some x ≡ false → x ≡ none
  not_found none h = refl
  not_found (some a) h = cc

  insert_observation-SameView :
      (c : MemoryCatalog) (o : ArtifactObservation) (edges : List ProvenanceEdge)
      → t < o.observed_at
      → SameView c (insert_observation o edges c).1
  insert_observation-SameView c o edges h = elim (insert_observation_cases o edges c) [
    | inl (f, e) ↦ rw e (SameView-refl c)
    | inr (k, e) ↦ rw e (record {
      observations =
          rw
            (
              Dict.values-insert_fresh o.observation_id o c.observations (not_found _ k.unobserved),
              filter-append,
              later_observation o h,
              append-nil,
            )
            refl;
      absences = refl;
    })
  ]

  record_absence-SameView :
      (c : MemoryCatalog) (a : ArtifactAbsence)
      → t < a.observed_at
      → SameView c (record_absence a c).1
  unfolding record_absence
  record_absence-SameView c a h = elim (Bool-cases (is_recorded a.observation_id c)) [
    | inl old ↦ rw old (SameView-refl c)
    | inr fresh ↦ rw fresh (record {
      observations = refl;
      absences =
          rw
            (
              Dict.values-insert_fresh a.observation_id a c.absences (not_found _ (ground arith)),
              filter-append,
              later_absence a h,
              append-nil,
            )
            refl;
    })
  ]

  bundle-SameView :
      (c : MemoryCatalog) (r : ContentRef) (o : ArtifactObservation) (edges : List ProvenanceEdge)
      → t < o.observed_at
      → SameView c (record_observation_bundle r o edges c).1
  bundle-SameView c r o edges h = elim (bundle_cases r o edges c) [
    | inl e ↦ rw e (SameView-refl c)
    | inr (inl (f, e)) ↦ rw e (record_content-SameView c r)
    | inr (inr (same, good, e)) ↦ rw e (
        SameView-trans c (record_content r c).1 _ (record_content-SameView c r)
          (insert_observation-SameView (record_content r c).1 o edges h))
  ]

  module _ (digest : Json → String) where
    execute-SameView :
        (call : Call) (c : MemoryCatalog) → IsAfter t call → SameView c (execute digest call c).1
    unfolding execute
    execute-SameView (register id d) c h =
        SameView-of_same c _ (register_source_frame c digest id d).1
    execute-SameView (start id s m) c h = SameView-of_same c _ (start_run_frame c id s m).0
    execute-SameView (finish id s st) c h = SameView-of_same c _ (finish_run_frame c id s st).0
    execute-SameView (start_op id n) c h = SameView-of_same c _ (start_operation_frame c id n).0
    execute-SameView (finish_op id s st d) c h =
        SameView-of_same c _ (finish_operation_frame c id s st d).0
    execute-SameView (content r) c h = record_content-SameView c r
    execute-SameView (bundle r o edges) c h = bundle-SameView c r o edges h
    execute-SameView (absence a) c h = record_absence-SameView c a h
    execute-SameView (validated r) c h = SameView-of_same c _ (record_validation_frame c r).1
    execute-SameView (snapshot s) c h = SameView-of_same c _ (record_source_snapshot_frame c s).1
    execute-SameView (dataset d) c h = SameView-of_same c _ (record_dataset_frame c digest d).1

    run_calls-SameView :
        (calls : List Call) (c : MemoryCatalog)
        → All (IsAfter t) calls
        → SameView c (run_calls digest calls c)
    unfolding run_calls
    run_calls-SameView [] c h = SameView-refl c
    run_calls-SameView (call ∷ calls) c h =
        SameView-trans c (execute digest call c).1 _ (execute-SameView call c h.0)
          (run_calls-SameView calls (execute digest call c).1 h.1)

    -- If every observation and absence recorded by the calls is after the time, the state of an
    -- artifact as of that time is what it was, whatever else the calls do.
    pub latest_state-run_calls :
        (calls : List Call) (c : MemoryCatalog)
        → All (IsAfter t) calls
        → latest_state key (some t) (run_calls digest calls c) ≡ latest_state key (some t) c
    latest_state-run_calls calls c h =
        latest_state-SameView c (run_calls digest calls c) (run_calls-SameView calls c h)
