-- ===== src/Engines/Leg.antt =====
-- rust_qsim/src/simulation/engines/leg_engine.rs: departures, the two engines that move vehicles, the exchange with the
-- neighbours and arrivals. The events that an operation publishes are part of its result.
pub mod Departure
pub mod Passing
pub mod Step
pub mod Conserve
pub mod Draining
