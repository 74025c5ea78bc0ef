-- ===== src/Config.antt =====
-- src/config.rs: the parts of the settings that are modelled.
pub mod Durations
pub mod Matching
pub mod Stages
mod Runs
