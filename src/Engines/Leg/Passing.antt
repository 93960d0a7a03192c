-- ===== src/Engines/Leg/Passing.antt =====
-- leg_engine.rs: the engine, and how it passes vehicles to the network or to teleportation. `none` is a panic.
use parallel_qsim_rust.Prelude.{
  ℕ, Bool, true, false, if◌then◌else◌, Option, some, ◌>>=◌, List, [], ◌∷◌, ◌++◌, map,
}
use parallel_qsim_rust.Prelude.Maps.{contains}
use parallel_qsim_rust.Time.{Tick, SimTime, SimClock, tick_to_time}
use parallel_qsim_rust.Float.{F64, Vehicle}
use parallel_qsim_rust.Network.SimNetwork
use parallel_qsim_rust.Messaging.Messages.{SyncMessage}
use parallel_qsim_rust.Messaging.Broker.{NetMessageBroker}
use parallel_qsim_rust.Engines.Network
use parallel_qsim_rust.Engines.Network.{NetworkEngine, Passengers, PartitionEvent}
use parallel_qsim_rust.Engines.Teleportation
use parallel_qsim_rust.Engines.Teleportation.{
  TeleportationEngine, Teleported, IdStore, ArrivalEvent,
}
use parallel_qsim_rust.Engines.Leg.Departure.{
  Garage, LegAgent, LegVehicle, LegEvent, vehicle_enters_partition, agent_enters_partition,
  on_network, leaves_partition, is_network, handle_departure,
}

pub record LegEngine (F V R : Type 0) : Type 0 where
  pub teleportation_engine : TeleportationEngine V
  pub network_engine : NetworkEngine F V R
  pub garage : Garage F
  pub net_message_broker : NetMessageBroker F V
  pub main_modes : List ℕ
  pub clock : SimClock

module _ (F : Type 0) {V : Type 0} ⦃t : Teleported F V⦄ where
  -- A leg of a main mode with a network route is driven.
  unfoldable pub is_driven : List ℕ → V → Option Bool
  is_driven main_modes x = do
    leg ← t.curr_leg x
    elim (contains leg.mode main_modes) [
      | false ↦ some false
      | true ↦ do route ← leg.route; some (is_network route)
    ]

module _ (F : Type 0) {V : Type 0} ⦃v : Vehicle F V⦄ ⦃ps : Passengers V⦄ where
  unfoldable pub emit_partition_enter_events : V → ℕ → SimTime → List (LegEvent F)
  emit_partition_enter_events x from now =
      vehicle_enters_partition (v.id x) from now
      ∷ agent_enters_partition (v.person x) from now
      ∷ map (λ k. agent_enters_partition k from now) (ps.passengers x)

module _ {F V R : Type 0} ⦃f : F64 F⦄ ⦃v : Vehicle F V⦄ ⦃t : Teleported F V⦄
    ⦃ps : Passengers V⦄ where
  -- Into the network, or on by teleportation.
  unfoldable pub to_network :
      Tick → V → Bool → LegEngine F V R → Option (LegEngine F V R × List (LegEvent F))
  to_network now x route_begin e = do
    (n, events) ← Network.receive_vehicle now x route_begin e.network_engine
    some (record e { network_engine = n }, map on_network events)

  unfoldable pub to_teleportation :
      Tick → V → LegEngine F V R → Option (LegEngine F V R × List (LegEvent F))
  to_teleportation now x e = do
    (tele, b, events) ←
        Teleportation.receive_vehicle now x e.teleportation_engine e.net_message_broker
    some (
      record e { teleportation_engine = tele; net_message_broker = b },
      map leaves_partition events,
    )

  unfoldable pub pass_vehicle_to_engine :
      Tick
      → V
      → (route_begin : Bool) → LegEngine F V R
      → Option (LegEngine F V R × List (LegEvent F))
  unfolding to_network to_teleportation is_driven
  pass_vehicle_to_engine now x route_begin e = do
    driven ← is_driven F e.main_modes x
    (if driven then to_network now x route_begin e else to_teleportation now x e)

  -- The vehicles of a message of the partition `from`.
  unfoldable pub accept_vehicles :
      Tick → ℕ → List V → LegEngine F V R → Option (LegEngine F V R × List (LegEvent F))
  unfolding pass_vehicle_to_engine emit_partition_enter_events
  accept_vehicles now from [] e = some (e, [])
  accept_vehicles now from (x ∷ xs) e = do
    time ← tick_to_time e.clock now
    (e₁, passed) ← pass_vehicle_to_engine now x false e
    (e₂, later) ← accept_vehicles now from xs e₁
    some (e₂, emit_partition_enter_events F x from time ++ (passed ++ later))

  unfoldable pub accept_messages :
      Tick → List (SyncMessage F V) → LegEngine F V R → Option (LegEngine F V R × List (LegEvent F))
  unfolding accept_vehicles
  accept_messages now [] e = some (e, [])
  accept_messages now (m ∷ ms) e = do
    n ← SimNetwork.apply_storage_cap_updates m.storage_capacities e.network_engine.network
    (e₁, events) ←
        accept_vehicles now m.from_process m.vehicles
          (record e { network_engine = record e.network_engine { network = n } })
    (e₂, later) ← accept_messages now ms e₁
    some (e₂, events ++ later)

module _ {F A V R : Type 0} ⦃f : F64 F⦄ ⦃v : Vehicle F V⦄ ⦃t : Teleported F V⦄ ⦃ps : Passengers V⦄
    ⦃l : LegAgent F A⦄ ⦃w : LegVehicle F A V⦄ where
  unfoldable pub receive_agent :
      Tick → A → LegEngine F V R → Option (LegEngine F V R × List (LegEvent F))
  unfolding handle_departure pass_vehicle_to_engine
  receive_agent now agent e = do
    now_time ← tick_to_time e.clock now
    departing ← l.advance_plan now_time agent
    (vehicle, events) ← handle_departure e.main_modes e.garage now_time departing
    (e', passed) ← pass_vehicle_to_engine now vehicle true e
    some (e', events ++ passed)

  unfoldable pub receive_agents :
      Tick → List A → LegEngine F V R → Option (LegEngine F V R × List (LegEvent F))
  unfolding receive_agent
  receive_agents now [] e = some (e, [])
  receive_agents now (agent ∷ agents) e = do
    (e₁, events) ← receive_agent now agent e
    (e₂, later) ← receive_agents now agents e₁
    some (e₂, events ++ later)
