-- ===== src/Sdk/Safety.antt =====
-- The methods of the SDK return, and keep the condition types of the Kptfile unique.
pub mod Rules
pub mod Callbacks
pub mod Updates
pub mod Stages
pub mod Run
pub mod Populate
