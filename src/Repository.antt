-- ===== src/Repository.antt =====
-- repository.py: the repository over its catalog and its blob store.
pub mod State
pub mod Steps
pub mod Runs
pub mod Lifecycle
pub mod Operations
pub mod Services
pub mod Fresh
pub mod Reliability
pub mod Observations
pub mod Snapshots
pub mod Sequences
