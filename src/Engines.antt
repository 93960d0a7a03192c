-- ===== src/Engines.antt =====
-- rust_qsim/src/simulation/engines/: the engines of a simulation step.
pub mod Activity
pub mod Network
pub mod Teleportation
pub mod Leg
pub mod Tests
