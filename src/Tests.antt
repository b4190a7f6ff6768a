-- ===== src/Tests.antt =====
-- Runs at concrete data, and the theorems at inputs that meet their hypotheses.
mod Sample
mod Services
mod Metadata
mod Catalogs
mod Executions
mod Reconciliations
mod Identities
mod Termination
mod Policies
mod Plans
mod Manifests
mod Declarations
mod Validations
mod Repositories
