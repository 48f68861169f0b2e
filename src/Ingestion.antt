-- ===== src/Ingestion.antt =====
-- Document ingestion (packages/ingestion).
pub mod Extraction
pub mod Loader
pub mod Contract
