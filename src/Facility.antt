-- ===== src/Facility.antt =====
-- Credit facilities: limits, drawdowns, repayments, fees and covenants.
pub mod Records
pub mod Utilization
pub mod Store
pub mod Service
pub mod Balances
pub mod Endpoints
pub mod Drawdowns
pub mod Repayments
pub mod Covenants
pub mod Session
pub mod Book
pub mod Moves
pub mod Validation
pub mod Steps
pub mod RepaymentSteps
pub mod Refinement
pub mod Accounts
pub mod Coverage
pub mod Conservation
pub mod Within
pub mod Limits
pub mod Final
pub mod Lifecycle
pub mod Settled
pub mod Schedule
pub mod Amortization
