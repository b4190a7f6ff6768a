-- ===== src/Tests/Policies.antt =====
-- A source whose role is not refreshed, asked for by the caller.
use efloud.Prelude.{string_eq, true, false, [], ◌∷◌, none, some, ◌≡◌}
use efloud.Policy.{PolicySource, RoleDrivenSyncPolicy, role_refresh_decision}
use efloud.Policy.Forced.{is_requested, role_refresh_decision-flags}
use efloud.Planning.{SyncRequest}

abbrev source : PolicySource
source = record { id = "s"; role = some "daily"; rsync_paths = none; collection = false }

abbrev policy : RoleDrivenSyncPolicy
policy = record { role_refresh = ("daily", false) ∷ []; collection_refresh = none }

abbrev request : SyncRequest
request = record {
  source_ids = none;
  include_derived = true;
  dry_run = false;
  max_concurrency = 4;
  refresh = false;
  refresh_source_ids = "s" ∷ [];
}

role_refresh_decision-flags_example :
    ((role_refresh_decision policy source request none).refresh
      ≡ (role_refresh_decision policy source request none).forced)
    × (is_requested source request ≡ true
        → (role_refresh_decision policy source request none).refresh ≡ true)
role_refresh_decision-flags_example = role_refresh_decision-flags policy source request none
