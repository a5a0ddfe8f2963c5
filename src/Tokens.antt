-- ===== src/Tokens.antt =====
-- The package tokens: standing mandates (headofcontext/tokens).
pub mod Mandate
pub mod Service
pub mod MandateStore
pub mod Mandates
