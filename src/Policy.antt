-- ===== src/Policy.antt =====
-- The policies of src/: which paths a task may change, which commands an agent may run, how risky a
-- change is, and what a role is limited to.
pub mod Paths
pub mod Commands
pub mod Roles
pub mod Risk
