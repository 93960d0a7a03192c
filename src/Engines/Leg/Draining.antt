-- ===== src/Engines/Leg/Draining.antt =====
-- The agents that are taken out at the end: of a partition (network/sim_network.rs), of the network engine, the
-- teleportation engine and the leg engine.
use parallel_qsim_rust.Prelude.{Option, some, ◌>>=◌, List, [], ◌∷◌, ◌++◌}
use parallel_qsim_rust.Prelude.Maps.{Map}
use parallel_qsim_rust.Float.{F64, Vehicle}
use parallel_qsim_rust.TimeQueue
use parallel_qsim_rust.Network.Link.Split
use parallel_qsim_rust.Network.Link.Split.{SimLink}
use parallel_qsim_rust.Network.SimNetwork.{SimNetworkPartition}
use parallel_qsim_rust.Engines.Teleportation.{TeleportingVehicle}
use parallel_qsim_rust.Engines.Leg.Departure.{LegVehicle}
use parallel_qsim_rust.Engines.Leg.Passing.{LegEngine}

-- `flat_map(SimulationVehicle::into_agents)`.
module _ (F : Type 0) {A V : Type 0} ⦃w : LegVehicle F A V⦄ where
  unfoldable pub all_agents : List V → Option (List A)
  all_agents [] = some []
  all_agents (x ∷ xs) = do agents ← w.into_agents x; rest ← all_agents xs; some (agents ++ rest)

unfoldable pub vehicles_of : {V : Type 0} → List (TeleportingVehicle V) → List V
vehicles_of [] = []
vehicles_of (y ∷ ys) = y.vehicle ∷ vehicles_of ys

module _ {F V : Type 0} ⦃f : F64 F⦄ ⦃v : Vehicle F V⦄ where
  unfoldable pub drain_links : Map (SimLink F V) → List V × Map (SimLink F V)
  unfolding Split.drain
  drain_links [] = ([], [])
  drain_links ((k, link) ∷ links) =
      let (xs, link') = Split.drain link in
      let (rest, links') = drain_links links in (xs ++ rest, (k, link') ∷ links')

module _ {F A V R : Type 0} ⦃f : F64 F⦄ ⦃v : Vehicle F V⦄ ⦃w : LegVehicle F A V⦄ where
  unfoldable pub drain_network :
      SimNetworkPartition F V R → Option (List A × SimNetworkPartition F V R)
  unfolding drain_links all_agents
  drain_network n = do
    agents ← all_agents F (drain_links n.links).0
    some (agents, record n { links = (drain_links n.links).1 })

  unfoldable pub drain : LegEngine F V R → Option (List A × LegEngine F V R)
  unfolding drain_network all_agents
  drain e = do
    (driving, n) ← drain_network e.network_engine.network
    let (flying, q) = TimeQueue.drain e.teleportation_engine.queue
    carried ← all_agents F (vehicles_of flying)
    some (
      driving ++ carried,
      record e {
        network_engine = record e.network_engine { network = n };
        teleportation_engine = record e.teleportation_engine { queue = q };
      },
    )
