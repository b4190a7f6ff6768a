-- ===== src/Policy.antt =====
-- policy.py: whether a source is acquired afresh, and its scope. A source is what the policies read
-- of it; the wording of a reason is kept where it is a fixed text.
pub mod Forced
use efloud.Prelude.{String, ◌<>◌, Bool, true, false, List, [], Option, none, some, ◌&&◌}
use efloud.Prelude.{if◌then◌else◌, string_eq, contains}
use efloud.Prelude.Dict.{Dict, lookup}
use efloud.Models.{SourceSnapshot}
use efloud.Planning.{RefreshDecision, SyncRequest}

-- `rsync_paths` is `source.paths` of a `RsyncSource`; `collection` tells a `CollectionSource`.
pub record PolicySource : Type 0 where
  pub id : String
  pub role : Option String
  pub rsync_paths : Option (List String)
  pub collection : Bool

abbrev pub decision : Bool → String → Bool → RefreshDecision
decision refresh reason forced = record { refresh = refresh; reason = reason; forced = forced }

-- `_ordinary_refresh_decision`
unfoldable pub ordinary_refresh_decision : Option SourceSnapshot → RefreshDecision
ordinary_refresh_decision none =
    decision false "no repository snapshot; normal acquisition/cache semantics apply" false
ordinary_refresh_decision (some snapshot) =
    decision false "repository snapshot exists and no forced refresh was requested" false

-- `DefaultSyncPolicy.refresh_decision`; the identifier is quoted plainly in the reason.
unfoldable pub default_refresh_decision :
    PolicySource → SyncRequest → Option SourceSnapshot → RefreshDecision
unfolding ordinary_refresh_decision
default_refresh_decision source request snapshot =
    if request.refresh
    then decision true "refresh requested for the sync" true
    else if contains request.refresh_source_ids source.id
    then decision true ("refresh requested for source '" <> source.id <> "'") true
    else ordinary_refresh_decision snapshot

-- `source_scope`, which both policies share.
unfoldable pub source_scope : PolicySource → List String
source_scope source = elim source.rsync_paths [ none ↦ [] | some paths ↦ paths ]

pub record RoleDrivenSyncPolicy : Type 0 where
  pub role_refresh : Dict String Bool
  pub collection_refresh : Option Bool

abbrev pub chosen : Bool → Option Bool → RefreshDecision → RefreshDecision
chosen false override explicit = explicit
chosen true none explicit = explicit
chosen true (some refresh) explicit = decision refresh "collection policy override" refresh

-- The override of a collection, or what the default policy says.
unfoldable pub collection_decision :
    RoleDrivenSyncPolicy → PolicySource → RefreshDecision → RefreshDecision
collection_decision policy source explicit =
    chosen source.collection policy.collection_refresh explicit

abbrev pub role_override : RoleDrivenSyncPolicy → Option String → Option (String × Bool)
role_override policy none = none
role_override policy (some role) = elim (lookup role policy.role_refresh) [
  | none ↦ none
  | some refresh ↦ some (role, refresh)
]

-- `RoleDrivenSyncPolicy.refresh_decision`
unfoldable pub role_refresh_decision :
    RoleDrivenSyncPolicy → PolicySource → SyncRequest → Option SourceSnapshot → RefreshDecision
unfolding default_refresh_decision collection_decision
role_refresh_decision policy source request snapshot =
    let explicit = default_refresh_decision source request snapshot in
    if explicit.forced then explicit else elim (role_override policy source.role) [
      | some (role, refresh) ↦ decision refresh ("role override for '" <> role <> "'") refresh
      | none ↦ collection_decision policy source explicit
    ]
