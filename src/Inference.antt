-- ===== src/Inference.antt =====
-- Running the model (packages/inference): what is done with its output.
pub mod Cleaning
pub mod Prompt
pub mod Contract
