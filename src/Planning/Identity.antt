-- ===== src/Planning/Identity.antt =====
-- The identity of a plan of planning.py, for permuted parts.
use mathlib.Core.List.{Permᴰ}
use efloud.Prelude.{String, List, map, ◌≡◌, refl, Distinct, string_eq}
use efloud.Prelude.Permuted.{sort-Perm}
use efloud.Json.{Json}
use efloud.Planning.{
  SyncRequest, PlanningDecision, PlannedOperation, make_sync_plan, decision_source, operation_key,
}

-- Decisions on distinct sources and operations with distinct keys make the same plan, with the
-- same identity, in whatever order they are given.
pub make_sync_plan-Perm :
    (digest : Json → String) (request : SyncRequest) {decisions decisions' : List PlanningDecision}
    {operations operations' : List PlannedOperation}
    → Permᴰ decisions decisions'
    → Permᴰ operations operations'
    → Distinct (map decision_source decisions)
    → Distinct (map operation_key operations)
    → make_sync_plan digest request decisions operations
      ≡ make_sync_plan digest request decisions' operations'
unfolding make_sync_plan
make_sync_plan-Perm digest request p q u v =
    rw (sort-Perm decision_source p u, sort-Perm operation_key q v) refl
