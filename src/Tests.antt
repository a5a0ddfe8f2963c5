-- ===== src/Tests.antt =====
-- The theorems at concrete inputs: a small world with one user, her agents and one document.
mod Fixtures
mod Decisions
mod Batches
mod Filters
mod Freshness
mod Chains
mod Approvals
mod Mandated
mod Memories
mod Journals
