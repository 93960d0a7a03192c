-- ===== src/Scenario.antt =====
-- rust_qsim/src/simulation/scenario/: the data that a simulation is built from.
pub mod RoadNetwork
pub mod Trips
pub mod TimeInterpretation
mod Tests
