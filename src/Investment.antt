-- ===== src/Investment.antt =====
-- Investments: interest, early termination and the schedule of periodic interest.
pub mod Engine
pub mod Schedule
pub mod Proceeds
pub mod Tiling
pub mod Records
pub mod Service
pub mod Rollover
pub mod Settlement
pub mod LedgerRows
pub mod CashLinks
