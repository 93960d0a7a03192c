-- ===== src/Engines/Network.antt =====
-- rust_qsim/src/simulation/engines/network_engine.rs: the moves of a partition, and what they hand over to the message
-- broker. `none` is a panic; published events are part of a result.
pub mod Outgoing
pub mod Moves
use parallel_qsim_rust.Prelude.{
  ℕ, Bool, true, false, Option, none, some, ◌>>=◌, List, [], ◌∷◌, ◌++◌, map,
}
use parallel_qsim_rust.Time.{Tick, SimTime, SimClock, tick_to_time}
use parallel_qsim_rust.Float.{F64, Vehicle, Event}
use parallel_qsim_rust.Network.SimNetwork
use parallel_qsim_rust.Network.SimNetwork.{SimNetworkPartition, StorageUpdate}
use parallel_qsim_rust.Network.Nodes
use parallel_qsim_rust.Network.Nodes.{Rng, Run, ok, and_then}
use parallel_qsim_rust.Messaging.Broker.{NetMessageBroker, rank_for_link, add_veh, add_cap_update}

-- `SimulationVehicle::passengers`, by their identities.
pub record Passengers (V : Type 0) : Type 0 where
  pub passengers : V → List ℕ

-- framework_events/mod.rs
pub data PartitionEvent : Type 0 where
  vehicle_leaves_partition : (vehicle to : ℕ) → SimTime → PartitionEvent
  agent_leaves_partition : (agent to : ℕ) → SimTime → PartitionEvent

pub record NetworkEngine (F V R : Type 0) : Type 0 where
  pub network : SimNetworkPartition F V R
  pub clock : SimClock

-- What the moves of the links lead to.
pub record LinksMoved (F V R : Type 0) : Type 0 where
  pub engine : NetworkEngine F V R
  pub broker : NetMessageBroker F V
  pub vehicles_end_leg : List V
  pub events : List Event
  pub partition_events : List PartitionEvent

module _ (F : Type 0) {V : Type 0} ⦃v : Vehicle F V⦄ ⦃ps : Passengers V⦄ where
  unfoldable pub emit_partition_leave_events : V → ℕ → SimTime → List PartitionEvent
  emit_partition_leave_events x to now =
      vehicle_leaves_partition (v.id x) to now
      ∷ agent_leaves_partition (v.person x) to now
      ∷ map (λ k. agent_leaves_partition k to now) (ps.passengers x)

  -- The loop over the vehicles that leave the partition.
  unfoldable pub hand_over_all :
      SimClock
      → Tick
      → List V
      → NetMessageBroker F V
      → Option (NetMessageBroker F V × List PartitionEvent)
  hand_over_all clock now [] b = some (b, [])
  hand_over_all clock now (x ∷ xs) b = do
    link_id ← v.curr_link_id x
    to ← rank_for_link link_id b
    time ← tick_to_time clock now
    b₁ ← add_veh x now b
    (b₂, events) ← hand_over_all clock now xs b₁
    some (b₂, emit_partition_leave_events x to time ++ events)

-- The loop over the storage updates.
unfoldable pub report_all :
    {F V : Type 0} → Tick → List (StorageUpdate F) → NetMessageBroker F V → NetMessageBroker F V
report_all now [] b = b
report_all now (u ∷ us) b = report_all now us (add_cap_update u now b)

module _ {F V R : Type 0} ⦃f : F64 F⦄ ⦃v : Vehicle F V⦄ ⦃ps : Passengers V⦄ where
  unfoldable pub receive_vehicle :
      Tick
      → V
      → (route_begin : Bool) → NetworkEngine F V R
      → Option (NetworkEngine F V R × List Event)
  receive_vehicle now x route_begin e =
      SimNetwork.send_veh_en_route x route_begin now e.network >>= λ (n, events).
      some (record e { network = n }, events)

  unfoldable pub move_links :
      Tick → NetworkEngine F V R → NetMessageBroker F V → Option (LinksMoved F V R)
  move_links now e b = do
    (n, g) ← SimNetwork.move_links now e.network
    (b₁, partition_events) ← hand_over_all F e.clock now g.vehicles_exit_partition b
    some (record {
      engine = record e { network = n };
      broker = report_all now g.storage_cap_updates b₁;
      vehicles_end_leg = g.vehicles_end_leg;
      events = g.events;
      partition_events = partition_events;
    })

module _ {F V R : Type 0} ⦃f : F64 F⦄ ⦃v : Vehicle F V⦄ ⦃r : Rng F R⦄ where
  -- The fuel is that of the loops of the nodes.
  unfoldable pub move_nodes :
      ℕ → Tick → NetworkEngine F V R → Run (NetworkEngine F V R × List Event)
  move_nodes fuel now e =
      and_then (Nodes.move_nodes fuel now e.network)
        λ (n, events). ok (record e { network = n }, events)
