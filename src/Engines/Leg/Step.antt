-- ===== src/Engines/Leg/Step.antt =====
-- leg_engine.rs: the ends of legs, and a step of the engine. `panics` is a panic.
use parallel_qsim_rust.Prelude.{
  ℕ, Bool, true, false, if◌then◌else◌, Option, some, ◌>>=◌, List, [], ◌∷◌, ◌++◌, map,
}
use parallel_qsim_rust.Time.{Tick, SimTime, SimClock, tick_to_time}
use parallel_qsim_rust.Float.{F64, Vehicle}
use parallel_qsim_rust.Network.Nodes.{Rng, Run, ok, panics, lift, and_then}
use parallel_qsim_rust.Messaging.Messages.{SyncMessage, SimMessage}
use parallel_qsim_rust.Messaging.Broker
use parallel_qsim_rust.Messaging.Broker.{NetMessageBroker, Senders, Received, waits, done}
use parallel_qsim_rust.Engines.Network
use parallel_qsim_rust.Engines.Network.{NetworkEngine, Passengers, PartitionEvent}
use parallel_qsim_rust.Engines.Teleportation
use parallel_qsim_rust.Engines.Teleportation.{
  TeleportationEngine, Teleported, IdStore, ArrivalEvent,
}
use parallel_qsim_rust.Engines.Leg.Departure.{
  LegAgent, LegVehicle, LegEvent, person_leaves_vehicle, person_arrival, on_network,
  leaves_partition, teleported,
}
use parallel_qsim_rust.Engines.Leg.Passing.{LegEngine, receive_agents, accept_messages}

-- Of one vehicle at the end of its leg: the events, and driver and passengers.
module _ (F : Type 0) {V : Type 0} ⦃v : Vehicle F V⦄ ⦃ps : Passengers V⦄ where
  abbrev pub leave_events : V → SimTime → Bool → List (LegEvent F)
  leave_events x now publish_leave_vehicle =
      if publish_leave_vehicle
      then person_leaves_vehicle now (v.person x) (v.id x)
        ∷ map (λ k. person_leaves_vehicle now k (v.id x)) (ps.passengers x)
      else []

module _ {F A V : Type 0} ⦃v : Vehicle F V⦄ ⦃t : Teleported F V⦄ ⦃ps : Passengers V⦄
    ⦃w : LegVehicle F A V⦄ where
  unfoldable pub publish_end : V → SimTime → Bool → Option (List A × List (LegEvent F))
  publish_end x now publish_leave_vehicle = do
    leg ← t.curr_leg x
    link ← v.curr_link_id x
    agents ← w.into_agents x
    some (
      agents,
      leave_events F x now publish_leave_vehicle
          ++ person_arrival now (v.person x) link leg.mode ∷ [],
    )

  unfoldable pub publish_all : List V → SimTime → Bool → Option (List A × List (LegEvent F))
  unfolding publish_end
  publish_all [] now publish_leave_vehicle = some ([], [])
  publish_all (x ∷ xs) now publish_leave_vehicle = do
    (agents, events) ← publish_end x now publish_leave_vehicle
    (more, later) ← publish_all xs now publish_leave_vehicle
    some (agents ++ more, events ++ later)

  unfoldable pub publish_end_events :
      SimClock → Tick → List V → Bool → Option (List A × List (LegEvent F))
  unfolding publish_all
  publish_end_events clock now vehicles publish_leave_vehicle = do
    now_time ← tick_to_time clock now
    publish_all vehicles now_time publish_leave_vehicle

-- What a step leads to: the engine, the agents that end their legs, the channels and the arrivals that are left.
pub record LegStep (F A V R : Type 0) : Type 0 where
  pub engine : LegEngine F V R
  pub agents : List A
  pub senders : Senders F V
  pub left : List (SimMessage F V)
  pub events : List (LegEvent F)

-- A step that waits for one more message of a neighbour is `blocked`.
pub data Stepped (F A V R : Type 0) : Type 0 where
  stepped : LegStep F A V R → Stepped F A V R
  blocked : Stepped F A V R

module _ {F A V R : Type 0} ⦃f : F64 F⦄ ⦃v : Vehicle F V⦄ ⦃t : Teleported F V⦄ ⦃ps : Passengers V⦄
    ⦃l : LegAgent F A⦄ ⦃w : LegVehicle F A V⦄ where
  -- The part of a step behind the exchange.
  unfoldable pub arrive :
      Tick
      → List (SyncMessage F V)
      → (network_vehicles teleported_vehicles : List V) → LegEngine F V R
      → Option (LegEngine F V R × List A × List (LegEvent F))
  unfolding accept_messages publish_end_events
  arrive now messages network_vehicles teleported_vehicles e = do
    (e', entered) ← accept_messages now messages e
    (driven, left) ← publish_end_events e'.clock now network_vehicles true
    (carried, ended) ← publish_end_events e'.clock now teleported_vehicles false
    some (e', driven ++ carried, entered ++ (left ++ ended))

module _ {F A V R : Type 0} ⦃f : F64 F⦄ ⦃v : Vehicle F V⦄ ⦃r : Rng F R⦄ ⦃t : Teleported F V⦄
    ⦃ps : Passengers V⦄ ⦃ids : IdStore⦄ ⦃l : LegAgent F A⦄ ⦃w : LegVehicle F A V⦄ where
  -- `arrivals` are the messages that come in during the exchange, `senders` the channels. The fuel is that of the nodes.
  unfoldable pub do_step :
      ℕ
      → Tick
      → List (SimMessage F V)
      → Senders F V
      → List A
      → LegEngine F V R
      → Run (Stepped F A V R)
  unfolding receive_agents arrive
  do_step fuel now arrivals senders agents e =
      and_then (lift (receive_agents now agents e)) λ (e₁, departed).
        and_then (lift (Teleportation.do_step now e₁.teleportation_engine)) λ (flown, tele, landed).
          and_then (Network.move_nodes fuel now e₁.network_engine) λ (crossed, over_nodes).
            and_then (lift (Network.move_links now crossed e₁.net_message_broker)) λ moved.
              and_then (lift (Broker.send_recv now arrivals senders moved.broker))
                λ (senders', received). elim received [
                  | Received.panics ↦ panics
                  | waits ↦ ok blocked
                  | done inbox left ↦
                      and_then
                        (lift (
                          arrive now inbox.received moved.vehicles_end_leg flown (record e₁ {
                            teleportation_engine = tele;
                            network_engine = moved.engine;
                            net_message_broker = Broker.after moved.broker inbox;
                          })))
                        λ (e₂, ended, events). ok (
                          stepped (record {
                            engine = e₂;
                            agents = ended;
                            senders = senders';
                            left = left;
                            events =
                                departed
                                ++ (map teleported landed
                                    ++ (map on_network (over_nodes ++ moved.events)
                                        ++ (map leaves_partition moved.partition_events
                                            ++ events)));
                          }))
                ]
