-- ===== src/Reconciliation.antt =====
-- Bank reconciliation (backend/app/services/reconciliation_*.py and their endpoints).
pub mod Records
pub mod Audit
pub mod Scoring
pub mod Candidates
pub mod Engine
pub mod MatchingRun
pub mod Derivation
pub mod Exceptions
pub mod Notes
pub mod Workflow
pub mod Store
pub mod Sync
pub mod Proposal
pub mod DecisionRecord
pub mod Decision
pub mod WorkQueue
pub mod Session
