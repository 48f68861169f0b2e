-- ===== src/Context.antt =====
-- The context package (packages/context): what is kept of the documents before retrieval.
pub mod Optimizer
pub mod Budget
pub mod Intent
pub mod Contract
