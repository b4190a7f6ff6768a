-- ===== src/Policy/Forced.antt =====
-- The flags of the decisions of policy.py.
use efloud.Prelude.{
  Bool, true, false, Option, none, some, ◌||◌, ◌≡◌, refl, ◌∙◌, sym, arith, inl, inr,
}
use efloud.Prelude.{string_eq, contains, Bool-cases, Option-cases}
use efloud.Models.{SourceSnapshot}
use efloud.Planning.{RefreshDecision, SyncRequest}
use efloud.Policy.{
  PolicySource, ordinary_refresh_decision, default_refresh_decision, RoleDrivenSyncPolicy, chosen,
  collection_decision, role_override, role_refresh_decision,
}

-- A caller asks for the source to be refreshed.
abbrev pub is_requested : PolicySource → SyncRequest → Bool
is_requested source request = request.refresh || contains request.refresh_source_ids source.id

default-flags :
    (source : PolicySource) (request : SyncRequest) (snapshot : Option SourceSnapshot)
    → ((default_refresh_decision source request snapshot).refresh ≡ is_requested source request)
      × ((default_refresh_decision source request snapshot).forced ≡ is_requested source request)
unfolding default_refresh_decision ordinary_refresh_decision
default-flags source request none = elim (Bool-cases request.refresh) [
  | inl all_sources ↦ rw all_sources (refl, refl)
  | inr h ↦ elim (Bool-cases (contains request.refresh_source_ids source.id)) [
    | inl named ↦ rw (h, named) (refl, refl)
    | inr other ↦ rw (h, other) (refl, refl)
  ]
]
default-flags source request (some snapshot) = elim (Bool-cases request.refresh) [
  | inl all_sources ↦ rw all_sources (refl, refl)
  | inr h ↦ elim (Bool-cases (contains request.refresh_source_ids source.id)) [
    | inl named ↦ rw (h, named) (refl, refl)
    | inr other ↦ rw (h, other) (refl, refl)
  ]
]

collection-flags :
    (source_is : Bool) (override : Option Bool) (d : RefreshDecision)
    → d.refresh ≡ d.forced
    → (chosen source_is override d).refresh ≡ (chosen source_is override d).forced
collection-flags false override d h = h
collection-flags true none d h = h
collection-flags true (some refresh) d h = refl

-- Under the role-driven policy a source is refreshed exactly if the refresh is forced, and every
-- source that the caller asks for is refreshed, whatever the overrides say.
pub role_refresh_decision-flags :
    (policy : RoleDrivenSyncPolicy) (source : PolicySource) (request : SyncRequest)
    (snapshot : Option SourceSnapshot)
    → ((role_refresh_decision policy source request snapshot).refresh
        ≡ (role_refresh_decision policy source request snapshot).forced)
      × (is_requested source request ≡ true
          → (role_refresh_decision policy source request snapshot).refresh ≡ true)
unfolding role_refresh_decision collection_decision
role_refresh_decision-flags policy source request snapshot =
    let explicit = default_refresh_decision source request snapshot in
    let flags = default-flags source request snapshot in
    elim (Bool-cases explicit.forced) [
      | inl forced ↦ rw forced (flags.0 ∙ sym flags.1, λ h. flags.0 ∙ h)
      | inr free ↦ elim (Option-cases (role_override policy source.role)) [
        | inl e ↦
            rw (free, e)
              (
                collection-flags source.collection policy.collection_refresh explicit
                    (flags.0 ∙ sym flags.1),
                λ h. absurd (ground arith),
              )
        | inr (o, e) ↦ rw (free, e) (refl, λ h. absurd (ground arith))
      ]
    ]
