-- ===== src/Performance.antt =====
-- Measurements of a run (packages/performance).
pub mod Sampler
pub mod Thermal
