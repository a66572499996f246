-- ===== src/Dashboard/Fixtures.antt =====
-- Which fixtures of two bookmakers are one: frontend/lib/fixture-identity.ts.
pub mod Distance
pub mod Names
pub mod Tokens
pub mod Identity
pub mod Index
mod Tests
