-- ===== src/Trust.antt =====
-- The trust layer (trust): the runtime stays offline.
pub mod OfflineGuard
