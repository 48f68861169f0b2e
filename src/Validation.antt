-- ===== src/Validation.antt =====
-- The validation of responses (packages/validation).
pub mod Response
pub mod Contract
