-- ===== src/Actions.antt =====
-- The package actions: approval requests, the gate and its policies (headofcontext/actions).
pub mod Request
pub mod Policies
pub mod Store
pub mod Resolve
pub mod Gate
