-- ===== src/Engines/Tests.antt =====
-- Runs of the engines under rust_qsim/src/simulation/engines.
pub mod ActivityRuns
pub mod NetworkRuns
pub mod TeleportationRuns
pub mod LegRuns
