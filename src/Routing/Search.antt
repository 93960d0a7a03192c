-- ===== src/Routing/Search.antt =====
-- rust_qsim/src/simulation/replanning/routing/a_star_core.rs: the search of least costs over a graph, for landmarks
-- and for routes. Costs are `f64`; the priority queue is that of the crate keyed_priority_queue. The operations of both
-- are parameters, and `QueueLaws` and `CostLaws` say what is documented of them.
pub mod Queue
pub mod Costs
pub mod Core
pub mod Actions
pub mod Reads
pub mod Walks
pub mod Relaxing
pub mod Rounds
pub mod Settling
pub mod Filling
pub mod Least
