-- ===== src/Audit.antt =====
-- The package audit: the hash chain of the journal (headofcontext/audit).
pub mod Payload
pub mod Chain
