-- ===== src/Datasets.antt =====
-- The datasets of dataset_selectors.py, dataset_constraints.py and datasets.py.
pub mod Snapshots
pub mod Selectors
pub mod Constraints
pub mod Resolve
pub mod Recorded
pub mod Reader
pub mod Members
pub mod Frozen
pub mod Constrained
pub mod Stable
