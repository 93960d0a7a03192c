-- ===== src/Lib.antt =====
-- parallel_qsim_rust: a model of the traffic simulation under rust_qsim/src/simulation, and the theorems that make
-- it correct. A scenario's network is split into partitions, one thread each. In every tick a partition lets agents
-- start and end activities and legs, moves vehicles over its nodes and links, and exchanges with its neighbours the
-- vehicles that cross the border and the storage that they free.
--
-- The parts, and the files that model them:
--   * time/mod.rs: Time (ticks, times and the clock between them), Time/Format (parsing and printing) over Time/Text,
--     which models the text functions of the standard library. Time/Bounds, Time/Rounding and Time/RoundTrip prove,
--     over the lemmas of Time/Decimal, Time/Padding and Time/Splitting.
--   * time_queue.rs: TimeQueue. TimeQueue/Schedule is what it promises; TimeQueue/Refinement, Trace and Conserve prove.
--   * network/flow_cap.rs, storage_cap.rs, stuck_timer.rs and link.rs: Network/Capacity, Network/StuckTimer,
--     Network/LinkState, Network/Link (links owned whole) and Network/Link/Split (links across partitions, and the
--     dispatch over the kinds of links). Network/Capacity/History and Network/Link/Moves, Step, Laws and Serving prove.
--   * network/sim_network.rs: Network/SimNetwork (entering vehicles, storage updates, `move_links`). Its children
--     Vehicles, Conserve, Gathering, Invariant, Total and Entering prove.
--     Network/Nodes is `move_nodes` of the same file: Nodes/Numbers names the laws of `f64` and of the generator that
--     its loop rests on, Nodes/Layout the routes and links that it needs; Nodes/Shapes, Moving, Asking, Visiting, Sweeping,
--     Rounds, InLinks and Total prove, from one link to the whole.
--   * scenario/population.rs: Population (plans and routes as a simulation step reads them).
--   * agents/agent_logic.rs: Agents, the agent that follows its plan. Agents/Plan proves how it goes through the plan,
--     Agents/Route how it follows a route.
--   * engines/activity_engine.rs: Engines/Activity, over the methods of agents/mod.rs that it calls. Its children Queues,
--     Responses, Ending and Step prove; PlanBased shows that the agents of Agents fulfil what Step asks.
--   * engines/network_engine.rs: Engines/Network, which composes Network and Messaging. Engines/Network/Outgoing and
--     Moves prove.
--   * engines/teleportation_engine.rs: Engines/Teleportation, with proofs in Engines/Teleportation/Steps.
--   * engines/leg_engine.rs: Engines/Leg/Departure (an agent gets its vehicle), Passing (a vehicle goes to the network or to
--     teleportation), Step (a step with its exchange, and the ends of legs) and Draining (the agents taken out at the
--     end, also of network/sim_network.rs and the other engines). Engines/Leg/Conserve proves.
--   * simulation.rs: Simulation, a tick and the loop over the ticks; Simulation/Ticks proves.
--   * id/id_store.rs: Identifiers/Store. Identifiers/Dense proves that the numbers of a type stay its names' places,
--     Identifiers/Reload that names which are loaded again keep their numbers.
--   * scenario/network.rs: Scenario/RoadNetwork, the network as loaded;
--     below it, the nodes and links that name each other (Wiring, Changes), and the proofs for what adds links
--     (Adding) and removes links and nodes (Removal, NodeRemoval).
--   * scenario/trip_structure_utils.rs: Scenario/Trips; its children Spans and Replacing prove.
--   * time/time_interpretation.rs: Scenario/TimeInterpretation.
--   * replanning/routing/graph.rs: Routing/Graph. network_converter.rs: Routing/Converter; its children Slices (rows among
--     all links), Numbering (places of ids) and Laws (one node) carry the proof in Faithful.
--     a_star_core.rs: Routing/Search/Core and Actions, over the queue and the numbers of Routing/Search/Queue and Costs,
--     and alt_landmark_data.rs: Routing/Landmarks. Routing/Search/Walks says what a least cost is; Reads, Relaxing (one
--     edge), Rounds (one node), Settling (between rounds), Filling (the start) and Least prove.
--   * messaging/messages.rs and sim_communication: Messaging/Messages and Messaging/Broker, with proofs in
--     Messaging/Cache, Receiving, Outbox, Filling and Exchange.
--   * Prelude holds what all share: tests on numbers, lists, maps and sets with integer keys, `u64` arithmetic. Modules
--     named Tests hold runs on small inputs; Network/Tests/SpecialNumbers has numbers with an infinity and NaN.
--
-- How state and code correspond: a struct is a record, an enum a data type, a method that mutates returns the new
-- record, and events that a method publishes are part of its result. A panic is `none`, or a constructor of its own.
-- A `u64` is a natural number with its wrap-around or check written out; arithmetic wraps where the code uses
-- plain operators, as in the release profile. `f64` is the interface `F64` of Float.antt: the theorems hold for every
-- choice of its operations, and name a law where they need one. A `SimTime` is its nanoseconds. Hash maps and sets
-- are lists in the order of their iteration, and a `BinaryHeap` a bag. The links see vehicles and their drivers through
-- the interface `Vehicle` of Float.antt.
--
-- Loops that the code bounds by a collection take one round for each element: `pop_due` and `pop_from_cache` run with
-- as many rounds as there are entries, which is enough since each round but the last removes one, and `end_loop` with as
-- many as there are awake agents, since each round removes or passes one.
-- The `while` of a node runs on fuel, one unit for each random number; incoming links, vehicles and numbers between
-- the bound of the loop and the capacity bound, counted together, are enough.
-- The loop of the search of least costs takes a node out of the queue in every round, and none enters it again, so it
-- runs with one round more than there are nodes.
-- The loop of the simulation takes one round for each tick and one more; the fuel of the nodes is passed on.
--
-- Not modelled: the builders of the parts from a configuration; reading and writing of files, the configuration,
-- controllers and threads, publication of events to handlers, profiling, the Metis partitioning and remote services,
-- which call third-party libraries; replanning and the preparation of scenarios, which do not take part in a
-- simulation step.
mod Prelude
pub mod Time
pub mod TimeQueue
pub mod Float
pub mod Network
pub mod Messaging
pub mod Population
pub mod Agents
pub mod Identifiers
pub mod Scenario
pub mod Routing
pub mod Engines
pub mod Simulation
