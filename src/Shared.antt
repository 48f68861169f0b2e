-- ===== src/Shared.antt =====
-- The shared layer (src/leanlm/shared): errors, the event bus and the telemetry spans.
pub mod Errors
pub mod Events
pub mod Telemetry
pub mod Text
