-- ===== src/Core.antt =====
-- The package core: references, capabilities and scopes, principal chains, decisions and the
-- decision path (headofcontext/core).
pub mod Errors
pub mod Refs
pub mod Capability
pub mod Scope
pub mod Chain
pub mod Decision
pub mod Events
pub mod Decider
