-- ===== src/Engines/Tests/TeleportationRuns.antt =====
-- Runs of rust_qsim/src/simulation/engines/teleportation_engine.rs.
use parallel_qsim_rust.Prelude.{
  ℕ, ◌+◌, ◌≡◌, refl, false, ◌==◌, if◌then◌else◌, ◌⊎◌, none, some, List, [], ◌∷◌, ◌++◌, map, length,
  arith,
}
use parallel_qsim_rust.Prelude.Maps.{get}
use parallel_qsim_rust.Time.{tick_to_time}
use parallel_qsim_rust.TimeQueue.Schedule.{enqueue, due, later}
use parallel_qsim_rust.TimeQueue.Refinement.{view, sort, insert}
use parallel_qsim_rust.Population.{InternalRoute, generic, InternalLeg}
use parallel_qsim_rust.Messaging.Broker.{NetMessageBroker, rank_for_link}
use parallel_qsim_rust.Messaging.Outbox.{vehicles_for}
use parallel_qsim_rust.Network.Tests.{cars, Car, passing, seconds}
use parallel_qsim_rust.Engines.Network.{Passengers, PartitionEvent}
use parallel_qsim_rust.Engines.Teleportation.{
  Teleported, IdStore, ArrivalEvent, teleportation_arrival, TeleportingVehicle, TeleportationEngine,
  receive_vehicle, emit_travelled, do_step,
}
use parallel_qsim_rust.Engines.Teleportation.Steps.{
  CanArrive, IsTeleported, do_step-due, receive_vehicle-enqueue,
}

instance abbrev pub alone : Passengers Car
alone = record { passengers = λ c. [] }

abbrev pub walk : InternalRoute ℕ
walk =
    generic (record {
      start_link = 1;
      end_link = 2;
      trav_time = none;
      distance = some 10;
      vehicle = none;
    })

abbrev pub on_foot : InternalLeg ℕ
on_foot = record {
  mode = 3;
  routing_mode = some 0;
  trav_time = some 5_000_000_000;
  route = some walk;
}

instance abbrev pub walkers : Teleported ℕ Car
walkers = record {
  curr_leg = λ c. some on_foot;
  end_time = λ c now. some (now + 5_000_000_000);
  teleportation_started = λ now c. some (record c { route = 2 ∷ [] });
}

instance abbrev pub names : IdStore
names = record { get_from_ext = λ name. some name }

abbrev pub walking : TeleportingVehicle Car
walking = record { vehicle = passing; arrival_time = 2_000_000_000 }

abbrev pub engine : TeleportationEngine Car
engine = record {
  queue = record {
    q = record { end_time = 2_000_000_000; order = 0; value = walking } ∷ [];
    counter = 1;
  };
  clock = seconds;
}

abbrev pub town_broker : NetMessageBroker ℕ Car
town_broker = record {
  rank = 0;
  out_messages = [];
  in_messages = [];
  link_mapping = (1, 0) ∷ (2, 1) ∷ [];
  neighbors = 1 ∷ [];
  global_sync = false;
}

abbrev pub at_end : Car
at_end = record passing { route = 2 ∷ [] }

pub three : tick_to_time seconds 3 ≡ some 3_000_000_000
unfolding tick_to_time
three = refl

walking-CanArrive : CanArrive ℕ 3_000_000_000 walking
unfolding emit_travelled
walking-CanArrive = (teleportation_arrival 3_000_000_000 8 3 10, refl)

shown : view engine.queue.q ≡ (2_000_000_000, walking) ∷ []
unfolding sort insert
shown = refl

do_step-due_example :
    (e' : TeleportationEngine Car) × (events : List (ArrivalEvent ℕ)) × (do_step 3 engine
      ≡ some (map (λ y. y.vehicle) (due 3_000_000_000 (view engine.queue.q)), e', events))
    × (view e'.queue.q ≡ later 3_000_000_000 (view engine.queue.q))
    × (length events ≡ length (due 3_000_000_000 (view engine.queue.q)))
do_step-due_example = do_step-due 3 engine three (rw shown (walking-CanArrive, tt))

pub passing-IsTeleported : IsTeleported passing at_end 3_000_000_000 8_000_000_000 1 town_broker
unfolding rank_for_link get
passing-IsTeleported = record {
  leg = on_foot;
  route = walk;
  started = refl;
  on_leg = refl;
  routed = refl;
  known = refl;
  at_end = refl;
  arrives = refl;
}

receive_vehicle-enqueue_example :
    (e' : TeleportationEngine Car) × (b' : NetMessageBroker ℕ Car) × (events : List PartitionEvent)
    × (receive_vehicle 3 passing engine town_broker ≡ some (e', b', events))
    × (((◌≡◌ {A = ℕ} 0 1)
          × (view e'.queue.q
              ≡ enqueue 8_000_000_000
                  (record { vehicle = at_end; arrival_time = 8_000_000_000 })
                  (view engine.queue.q))
          × (b' ≡ town_broker))
        ⊎ ((0 == 1 ≡ false)
            × (e' ≡ engine)
            × ((k : ℕ)
                → vehicles_for k b' ≡ (
                    if 1 == k
                    then vehicles_for k town_broker ++ at_end ∷ []
                    else vehicles_for k town_broker))))
receive_vehicle-enqueue_example =
    receive_vehicle-enqueue 3 passing engine town_broker three passing-IsTeleported
      (omega arith, tt) (omega arith)
