-- ===== src/Contracts.antt =====
-- The data that the collector's parts exchange (collector/shared/src/contracts.ts), by subject.
pub mod Odds
pub mod Bets
