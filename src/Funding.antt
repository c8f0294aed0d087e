-- ===== src/Funding.antt =====
-- Funding actions: the decisions that stand beside drawdowns and repayments.
pub mod Actions
pub mod Workflow
pub mod Backed
pub mod Links
