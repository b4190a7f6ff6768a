-- ===== src/Executor.antt =====
-- executor.py: the execution of a plan, wave by wave.
pub mod Store
pub mod Operation
pub mod Waves
pub mod Entries
pub mod Steps
pub mod Settle
pub mod Blocking
pub mod Scheduling
pub mod Listing
pub mod Verdicts
pub mod Executed
pub mod Returns
pub mod Liveness
pub mod Run
