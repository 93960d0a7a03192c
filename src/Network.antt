-- ===== src/Network.antt =====
-- rust_qsim/src/simulation/network/: the links and the partitions of the network.
pub mod Capacity
pub mod StuckTimer
pub mod LinkState
pub mod Link
pub mod SimNetwork
pub mod Nodes
pub mod Tests
