-- ===== src/Contracts.antt =====
-- The contracts layer (src/leanlm/contracts): the objects that travel through the pipelines, the
-- immutable execution context, the capability contract and the document pipeline's state.
pub mod Dto
pub mod Iec
pub mod Capability
pub mod Ddp
