-- ===== src/Understanding.antt =====
-- The understanding package (packages/understanding): from normalized text to semantic units.
pub mod Structure
pub mod Segmenter
pub mod Contract
