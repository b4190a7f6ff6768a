-- ===== src/Planner/Refused.antt =====
-- `SyncExecutor.execute` on a plan with an operation that depends on a source without one.
use efloud.Prelude.{string_eq}
use efloud.Json.{Json}
use efloud.Executor.Operation
