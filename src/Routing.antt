-- ===== src/Routing.antt =====
-- rust_qsim/src/simulation/replanning/routing/: graphs over the network and the search of least cost paths.
pub mod Graph
pub mod Search
pub mod Landmarks
pub mod Converter
pub mod Tests
