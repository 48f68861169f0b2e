-- ===== src/Scenarios.antt =====
-- Concrete pipelines, contexts and calls: the theorems of the other modules applied to them.
pub mod Wiring
pub mod Calls
pub mod Documents
pub mod Selection
pub mod Network
pub mod Loading
pub mod Sessions
pub mod Structuring
pub mod Storing
pub mod Judging
pub mod Planning
pub mod Asking
pub mod Cleaning
pub mod Prompting
pub mod Ingesting
pub mod Retrieving
pub mod Answering
pub mod Assembling
pub mod Measuring
