-- ===== src/Runtime.antt =====
-- The runtime layer (src/leanlm/runtime).
pub mod StateMachine
pub mod Pipeline
pub mod Dic
pub mod Loading
pub mod Session
pub mod Corpus
pub mod Asking
pub mod Ingesting
pub mod Assembly
