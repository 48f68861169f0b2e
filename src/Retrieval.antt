-- ===== src/Retrieval.antt =====
-- The retrieval package (packages/retrieval): which passages go into the prompt.
pub mod Selector
pub mod Index
pub mod Ranking
pub mod Contract
