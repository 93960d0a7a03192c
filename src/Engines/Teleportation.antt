-- ===== src/Engines/Teleportation.antt =====
-- rust_qsim/src/simulation/engines/teleportation_engine.rs, and `is_local_route` of simulation.rs. `none` is a panic; published
-- events are part of a result. The store of identities (id/mod.rs) is an interface here.
pub mod Steps
use parallel_qsim_rust.Prelude.{
  ℕ, Bool, ◌==◌, if◌then◌else◌, Option, none, some, ◌>>=◌, List, [], ◌∷◌, map,
}
use parallel_qsim_rust.Time.{Tick, SimTime, SimClock, tick_to_time}
use parallel_qsim_rust.Float.{Vehicle}
use parallel_qsim_rust.TimeQueue
use parallel_qsim_rust.TimeQueue.{TimeQueue, EndTime}
use parallel_qsim_rust.Population.{InternalRoute, generic, network, pt, InternalLeg, as_generic}
use parallel_qsim_rust.Messaging.Broker.{NetMessageBroker, rank_for_link, add_veh}
use parallel_qsim_rust.Engines.Network.{Passengers, PartitionEvent, emit_partition_leave_events}

-- What the engine needs of a vehicle (vehicles/mod.rs) and its driver: the leg, its end time, and the vehicle whose
-- driver and passengers are told of `AgentEvent::TeleportationStarted`.
pub record Teleported (F V : Type 0) : Type 0 where
  pub curr_leg : V → Option (InternalLeg F)
  pub end_time : V → SimTime → Option SimTime
  pub teleportation_started : SimTime → V → Option V

-- `Id::<String>::get_from_ext`.
pub record IdStore : Type 0 where
  pub get_from_ext : ℕ → Option ℕ

pub data ArrivalEvent (F : Type 0) : Type 0 where
  teleportation_arrival : SimTime → (person mode : ℕ) → F → ArrivalEvent F
  pt_teleportation_arrival : SimTime → (person mode : ℕ) → F → (line route : ℕ) → ArrivalEvent F

pub record TeleportingVehicle (V : Type 0) : Type 0 where
  pub vehicle : V
  pub arrival_time : SimTime

instance abbrev pub arrival_end_time : {V : Type 0} → EndTime (TeleportingVehicle V)
arrival_end_time = record { end_time = λ x now. x.arrival_time }

pub record TeleportationEngine (V : Type 0) : Type 0 where
  pub queue : TimeQueue (TeleportingVehicle V)
  pub clock : SimClock

module _ {F V : Type 0} ⦃v : Vehicle F V⦄ ⦃t : Teleported F V⦄ where
  unfoldable pub is_local_route : V → NetMessageBroker F V → Option Bool
  is_local_route x b = do
    leg ← t.curr_leg x
    route ← leg.route
    to ← rank_for_link (as_generic route).end_link b
    some (b.rank == to)

module _ (F : Type 0) {V : Type 0} ⦃t : Teleported F V⦄ where
  unfoldable pub build : V → SimTime → Option (TeleportingVehicle V)
  build x now = t.end_time x now >>= λ arrival_time.
      some (record { vehicle = x; arrival_time = arrival_time })

module _ {F V : Type 0} ⦃v : Vehicle F V⦄ ⦃t : Teleported F V⦄ ⦃ps : Passengers V⦄ where
  unfoldable pub enqueue_local :
      V
      → SimTime
      → TeleportationEngine V
      → NetMessageBroker F V
      → Option (TeleportationEngine V × NetMessageBroker F V × List PartitionEvent)
  unfolding build
  enqueue_local x now_time e b = build F x now_time >>= λ y.
      some ((record e { queue = TimeQueue.add y now_time e.queue }), b, [])

  unfoldable pub send_remote :
      V
      → Tick
      → SimTime
      → TeleportationEngine V
      → NetMessageBroker F V
      → Option (TeleportationEngine V × NetMessageBroker F V × List PartitionEvent)
  send_remote x now now_time e b = do
    link_id ← v.curr_link_id x
    to ← rank_for_link link_id b
    b' ← add_veh x now b
    some (e, b', emit_partition_leave_events F x to now_time)

  unfoldable pub receive_vehicle :
      Tick
      → V
      → TeleportationEngine V
      → NetMessageBroker F V
      → Option (TeleportationEngine V × NetMessageBroker F V × List PartitionEvent)
  unfolding is_local_route enqueue_local send_remote
  receive_vehicle now x e b = do
    now_time ← tick_to_time e.clock now
    x' ← t.teleportation_started now_time x
    is_local ← is_local_route x' b
    (if is_local then enqueue_local x' now_time e b else send_remote x' now now_time e b)

module _ {F V : Type 0} ⦃v : Vehicle F V⦄ ⦃t : Teleported F V⦄ ⦃ids : IdStore⦄ where
  abbrev pub emit_for : V → SimTime → ℕ → InternalRoute F → Option (ArrivalEvent F)
  emit_for x now mode (generic g) =
      g.distance >>= λ d. some (teleportation_arrival now (v.person x) mode d)
  emit_for x now mode (network g route) =
      g.distance >>= λ d. some (teleportation_arrival now (v.person x) mode d)
  emit_for x now mode (pt g line route) = do
    transit_line_id ← ids.get_from_ext line
    transit_route_id ← ids.get_from_ext route
    d ← g.distance
    some (pt_teleportation_arrival now (v.person x) mode d transit_line_id transit_route_id)

  unfoldable pub emit_travelled : SimTime → V → Option (ArrivalEvent F)
  emit_travelled now x = do leg ← t.curr_leg x; route ← leg.route; emit_for x now leg.mode route

  unfoldable pub emit_all : SimTime → List (TeleportingVehicle V) → Option (List (ArrivalEvent F))
  unfolding emit_travelled
  emit_all now [] = some []
  emit_all now (y ∷ ys) = do
    event ← emit_travelled now y.vehicle
    events ← emit_all now ys
    some (event ∷ events)

  unfoldable pub do_step :
      Tick → TeleportationEngine V → Option (List V × TeleportationEngine V × List (ArrivalEvent F))
  unfolding emit_all
  do_step now e = do
    now_time ← tick_to_time e.clock now
    let (arrived, q) = TimeQueue.pop now_time e.queue
    events ← emit_all now_time arrived
    some (map (λ y. y.vehicle) arrived, record e { queue = q }, events)
