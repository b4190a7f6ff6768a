-- ===== src/Catalog.antt =====
-- catalog/memory.py, the in-memory catalog: its state, its operations, and what they keep.
pub mod State
pub mod Runs
pub mod Evidence
pub mod Snapshots
pub mod Cases
pub mod Lifecycle
pub mod Recorded
pub mod Stored
pub mod Frames
pub mod Calls
pub mod Extension
pub mod History
pub mod Kept
pub mod AppendOnly
pub mod Latest
pub mod AsOf
