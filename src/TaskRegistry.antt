-- ===== src/TaskRegistry.antt =====
-- task-registry
pub mod Parents
pub mod Claims
pub mod Fields
pub mod Blockers
pub mod Plans
pub mod Lifecycle
