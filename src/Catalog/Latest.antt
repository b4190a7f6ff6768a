-- ===== src/Catalog/Latest.antt =====
-- `latest_state` of catalog/memory.py, against the states that are recorded.
use mathlib.Core.Option.{some-injective}
use mathlib.Core.Path.{subst}
use efloud.Prelude.{◌↔◌, ℕ, String, true, Option, none, some, ◌≡◌, refl, arith}
use efloud.Prelude.{inl, inr}
use efloud.Prelude.{string_eq, Member, Member-filter, filter, Bool-cases}
use efloud.Prelude.Sort.{
  IsOrder-key, stamp_leb, stamp_leb-IsOrder, max_by-IsMax, max_by-none, not_le,
}
use efloud.Prelude.Dict
use efloud.Prelude.Dict.{values, lookup}
use efloud.Prelude.Keyed.{lookup_of_Member-values}
use efloud.Models.{
  ArtifactKey, ArtifactObservation, ArtifactAbsence, ArtifactState, present, absent,
}
use efloud.Catalog.State.{MemoryCatalog}
use efloud.Catalog.Evidence.{
  observation_stamp, absence_stamp, observation_leb, absence_leb, up_to, observation_candidate,
  absence_candidate, latest_observation, latest_absence, later_state, latest_state,
}
use efloud.Catalog.Recorded.{IsEvidence, observation_key, absence_key}

abbrev pub state_stamp : ArtifactState → ℕ × String
state_stamp (present o) = observation_stamp o
state_stamp (absent a) = absence_stamp a

-- The state is recorded for the artifact, not after the bound.
abbrev pub IsStateOf : MemoryCatalog → ArtifactKey → Option ℕ → ArtifactState → Type 0
IsStateOf c key before (present o) =
    (lookup o.observation_id c.observations ≡ some o)
    × (o.artifact_key ≡ key)
    × (up_to before o.observed_at ≡ true)
IsStateOf c key before (absent a) =
    (lookup a.observation_id c.absences ≡ some a)
    × (a.artifact_key ≡ key)
    × (up_to before a.observed_at ≡ true)

-- No recorded state of the artifact is later.
pub record IsLatest (c : MemoryCatalog) (key : ArtifactKey) (before : Option ℕ) (s : ArtifactState)
    : Type 0 where
  pub recorded : IsStateOf c key before s
  pub last :
      (t : ArtifactState)
      → IsStateOf c key before t
      → stamp_leb (state_stamp t) (state_stamp s) ≡ true

module _ (c : MemoryCatalog) (l : IsEvidence c) (key : ArtifactKey) (before : Option ℕ) where
  observation_Member :
      (o : ArtifactObservation)
      → Member o (filter (observation_candidate key before) (values c.observations))
        ↔ IsStateOf c key before (present o)
  observation_Member o = (
    λ m.
        let h = (Member-filter (observation_candidate key before) o (values c.observations)).0 m in
        (
          lookup_of_Member-values observation_key o c.observations l.observations_keyed
              l.observations_distinct h.0,
          ground (arith, string_eq.beq_iff o.artifact_key key),
          ground arith,
        ),
    λ h. (Member-filter (observation_candidate key before) o (values c.observations)).1 (
      Dict.Member-values_of_lookup o.observation_id o c.observations h.0,
      ground (arith, string_eq.beq_iff o.artifact_key key),
    ),
  )

  absence_Member :
      (a : ArtifactAbsence)
      → Member a (filter (absence_candidate key before) (values c.absences))
        ↔ IsStateOf c key before (absent a)
  absence_Member a = (
    λ m.
        let h = (Member-filter (absence_candidate key before) a (values c.absences)).0 m in
        (
          lookup_of_Member-values absence_key a c.absences l.absences_keyed l.absences_distinct h.0,
          ground (arith, string_eq.beq_iff a.artifact_key key),
          ground arith,
        ),
    λ h. (Member-filter (absence_candidate key before) a (values c.absences)).1 (
      Dict.Member-values_of_lookup a.observation_id a c.absences h.0,
      ground (arith, string_eq.beq_iff a.artifact_key key),
    ),
  )

  latest_observation-IsMax :
      (o : ArtifactObservation)
      → latest_observation key before c ≡ some o
      → IsStateOf c key before (present o)
        × ((p : ArtifactObservation)
            → IsStateOf c key before (present p)
            → observation_leb p o ≡ true)
  unfolding latest_observation
  latest_observation-IsMax o h =
      let k = max_by-IsMax (IsOrder-key stamp_leb-IsOrder observation_stamp) _ o h in
      ((observation_Member o).0 k.there, λ p s. k.above p ((observation_Member p).1 s))

  latest_absence-IsMax :
      (a : ArtifactAbsence)
      → latest_absence key before c ≡ some a
      → IsStateOf c key before (absent a)
        × ((b : ArtifactAbsence) → IsStateOf c key before (absent b) → absence_leb b a ≡ true)
  unfolding latest_absence
  latest_absence-IsMax a h =
      let k = max_by-IsMax (IsOrder-key stamp_leb-IsOrder absence_stamp) _ a h in
      ((absence_Member a).0 k.there, λ b s. k.above b ((absence_Member b).1 s))

  latest_observation-none :
      latest_observation key before c ≡ none
      → (o : ArtifactObservation) → ¬ IsStateOf c key before (present o)
  unfolding latest_observation
  latest_observation-none h o s =
      subst (Member o) (max_by-none observation_leb _ h) ((observation_Member o).1 s) tt

  latest_absence-none :
      latest_absence key before c ≡ none
      → (a : ArtifactAbsence) → ¬ IsStateOf c key before (absent a)
  unfolding latest_absence
  latest_absence-none h a s =
      subst (Member a) (max_by-none absence_leb _ h) ((absence_Member a).1 s) tt

  only_observation :
      (o : ArtifactObservation)
      → latest_observation key before c ≡ some o
      → latest_absence key before c ≡ none
      → IsLatest c key before (present o)
  only_observation o h none_absent = record {
    recorded = (latest_observation-IsMax o h).0;
    last = elim [
      | present p ↦ λ s. (latest_observation-IsMax o h).1 p s
      | absent b ↦ λ s. absurd (latest_absence-none none_absent b s)
    ];
  }

  only_absence :
      (a : ArtifactAbsence)
      → latest_observation key before c ≡ none
      → latest_absence key before c ≡ some a
      → IsLatest c key before (absent a)
  only_absence a none_present h = record {
    recorded = (latest_absence-IsMax a h).0;
    last = elim [
      | present p ↦ λ s. absurd (latest_observation-none none_present p s)
      | absent b ↦ λ s. (latest_absence-IsMax a h).1 b s
    ];
  }

  observation_after :
      (o : ArtifactObservation) (a : ArtifactAbsence)
      → latest_observation key before c ≡ some o
      → latest_absence key before c ≡ some a
      → stamp_leb (absence_stamp a) (observation_stamp o) ≡ true
      → IsLatest c key before (present o)
  observation_after o a h k le = record {
    recorded = (latest_observation-IsMax o h).0;
    last = elim [
      | present p ↦ λ s. (latest_observation-IsMax o h).1 p s
      | absent b ↦ λ s.
          stamp_leb-IsOrder.trans (absence_stamp b) (absence_stamp a) (observation_stamp o)
            ((latest_absence-IsMax a k).1 b s) le
    ];
  }

  absence_after :
      (o : ArtifactObservation) (a : ArtifactAbsence)
      → latest_observation key before c ≡ some o
      → latest_absence key before c ≡ some a
      → stamp_leb (observation_stamp o) (absence_stamp a) ≡ true
      → IsLatest c key before (absent a)
  absence_after o a h k le = record {
    recorded = (latest_absence-IsMax a k).0;
    last = elim [
      | present p ↦ λ s.
          stamp_leb-IsOrder.trans (observation_stamp p) (observation_stamp o) (absence_stamp a)
            ((latest_observation-IsMax o h).1 p s) le
      | absent b ↦ λ s. (latest_absence-IsMax a k).1 b s
    ];
  }

  chosen-IsLatest :
      (x : Option ArtifactObservation) (y : Option ArtifactAbsence) (s : ArtifactState)
      → latest_observation key before c ≡ x
      → latest_absence key before c ≡ y
      → later_state x y ≡ some s
      → IsLatest c key before s
  unfolding later_state
  chosen-IsLatest none none s h k e = cc
  chosen-IsLatest (some o) none s h k e =
      subst (IsLatest c key before) (some-injective _ _ e) (only_observation o h k)
  chosen-IsLatest none (some a) s h k e =
      subst (IsLatest c key before) (some-injective _ _ e) (only_absence a h k)
  chosen-IsLatest (some o) (some a) s h k e =
      elim (Bool-cases (stamp_leb (absence_stamp a) (observation_stamp o))) [
        | inl le ↦
            subst (IsLatest c key before) (some-injective _ _ (rw (le, later_state) at e))
              (observation_after o a h k le)
        | inr gt ↦ subst (IsLatest c key before) (some-injective _ _ (rw (gt, later_state) at e)) (
            absence_after o a h k
              (not_le stamp_leb-IsOrder (absence_stamp a) (observation_stamp o) gt))
      ]

  latest_state-IsLatest :
      (s : ArtifactState) → latest_state key before c ≡ some s → IsLatest c key before s
  unfolding latest_state
  latest_state-IsLatest s h = chosen-IsLatest _ _ s refl refl h

  nothing_chosen :
      (x : Option ArtifactObservation) (y : Option ArtifactAbsence)
      → latest_observation key before c ≡ x
      → latest_absence key before c ≡ y
      → later_state x y ≡ none
      → (s : ArtifactState) → ¬ IsStateOf c key before s
  unfolding later_state
  nothing_chosen none none h k e (present o) = latest_observation-none h o
  nothing_chosen none none h k e (absent a) = latest_absence-none k a
  nothing_chosen none (some a) h k e s = absurd (ground arith)
  nothing_chosen (some o) none h k e s = absurd (ground arith)
  nothing_chosen (some o) (some a) h k e s = absurd (ground arith)

  latest_state-none :
      latest_state key before c ≡ none → (s : ArtifactState) → ¬ IsStateOf c key before s
  unfolding latest_state
  latest_state-none h s = nothing_chosen _ _ refl refl h s

-- The answer is the latest of the recorded states that meet the bound, or there is none.
abbrev pub Answers : MemoryCatalog → ArtifactKey → Option ℕ → Option ArtifactState → Type 0
Answers c key before none = (s : ArtifactState) → ¬ IsStateOf c key before s
Answers c key before (some s) = IsLatest c key before s

-- In a catalog whose evidence is consistent, `latest_state` returns a recorded state of the
-- artifact that meets the bound and that no other such state follows by time and identifier; it
-- returns `None` only if no such state is recorded.
pub latest_state-Answers :
    (c : MemoryCatalog) (key : ArtifactKey) (before : Option ℕ)
    → IsEvidence c
    → Answers c key before (latest_state key before c)
latest_state-Answers c key before l = answer (latest_state key before c) refl
  where
    answer : (r : Option ArtifactState) → latest_state key before c ≡ r → Answers c key before r
    answer none h = latest_state-none c l key before h
    answer (some s) h = latest_state-IsLatest c l key before s h
