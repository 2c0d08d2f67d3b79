-- ===== src/Alpha.antt =====
-- The modules of src/alpha/: contracts, verdicts and the store.
pub mod Paths
pub mod Contract
pub mod Judge
pub mod Store
