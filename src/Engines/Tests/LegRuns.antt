-- ===== src/Engines/Tests/LegRuns.antt =====
-- Runs of rust_qsim/src/simulation/engines/leg_engine.rs: the person 8 walks, and is teleported.
use parallel_qsim_rust.Prelude.{
  ℕ, ◌+◌, ◌≡◌, refl, true, if◌then◌else◌, some, List, [], ◌∷◌, ◌++◌, inr,
}
use parallel_qsim_rust.Prelude.Maps.{get, contains}
use parallel_qsim_rust.Population.{as_generic}
use parallel_qsim_rust.Network.Tests.{whole_numbers, cars, Car, passing, seconds}
use parallel_qsim_rust.Network.Tests.PartitionRuns.{town, town-IsValid}
use parallel_qsim_rust.Engines.Tests.TeleportationRuns.{
  alone, walkers, engine, walk, on_foot, town_broker, at_end, three, passing-IsTeleported,
}
use parallel_qsim_rust.Engines.Leg.Departure.{
  InternalVehicle, LegAgent, LegVehicle, LegEvent, person_departure, person_enters_vehicle,
  vehicle_of,
}
use parallel_qsim_rust.Engines.Leg.Passing.{LegEngine, is_driven, receive_agent}
use parallel_qsim_rust.Engines.Leg.Conserve.{IsPassed, CanPass, CanDepart, receive_agent-IsPassed}

instance abbrev pub persons : LegAgent ℕ ℕ
persons = record {
  id = λ a. a;
  is_on_leg = λ a. true;
  curr_leg = λ a. some on_foot;
  advance_plan = λ now a. some a;
  named_vehicle = λ person mode. some (100 + person);
}

instance abbrev pub pedestrians : LegVehicle ℕ ℕ Car
pedestrians = record {
  new_vehicle = λ parked a others. record { number = a; route = 1 ∷ 2 ∷ [] };
  into_agents = λ c. some (8 ∷ []);
}

abbrev pub walker : ℕ
walker = 8

abbrev pub shoes : InternalVehicle ℕ
shoes = record { id = 108; max_v = 1; pce = 0; vehicle_type = 3 }

abbrev pub legs : LegEngine ℕ Car Unit
legs = record {
  teleportation_engine = engine;
  network_engine = record { network = town; clock = seconds };
  garage = record { vehicles = (108, shoes) ∷ [] };
  net_message_broker = town_broker;
  main_modes = 0 ∷ [];
  clock = seconds;
}

walker-CanDepart : CanDepart walker walker 3_000_000_000 legs
unfolding get vehicle_of contains
walker-CanDepart = record {
  leg = on_foot;
  route = walk;
  routing_mode = 0;
  veh_id = 108;
  parked = shoes;
  advanced = refl;
  on_leg = refl;
  current = refl;
  routed = refl;
  mode = refl;
  chosen = refl;
  drives = λ h. cc;
  in_garage = refl;
}

walker-CanPass : CanPass passing true 3 3_000_000_000 legs
unfolding is_driven contains
walker-CanPass = inr (at_end, 8_000_000_000, 1, refl, passing-IsTeleported)

receive_agent-IsPassed_example :
    (e' : LegEngine ℕ Car Unit) × (later : List (LegEvent ℕ)) × (receive_agent 3 walker legs
      ≡ some (
        e',
        (person_departure 3_000_000_000 8 (as_generic walk).start_link 3 0
              ∷ (if contains 3 (0 ∷ [])
                  then person_enters_vehicle 3_000_000_000 8 108 ∷ []
                  else []))
            ++ later,
      ))
    × IsPassed passing 3_000_000_000 legs e'
unfolding walker-CanDepart
receive_agent-IsPassed_example =
    receive_agent-IsPassed 3 walker walker legs three three three town-IsValid walker-CanDepart
      walker-CanPass
