-- ===== src/Simulation/Tests.antt =====
-- Two ticks with the engines of Engines/Tests/LegRuns, and no agent at an activity.
use parallel_qsim_rust.Prelude.{ℕ, ◌≡◌, none, some, [], ◌∷◌, arith}
use parallel_qsim_rust.Network.Nodes.{Rng}
use parallel_qsim_rust.Network.Tests.{whole_numbers, cars, Car, seconds}
use parallel_qsim_rust.Engines.Activity.{ActivityEngine, SimulationAgentLogic}
use parallel_qsim_rust.Engines.Tests.TeleportationRuns.{alone, walkers, names}
use parallel_qsim_rust.Engines.Tests.LegRuns.{persons, pedestrians, legs}
use parallel_qsim_rust.Simulation.{Simulation, World, run_loop}
use parallel_qsim_rust.Simulation.Ticks.{ticks, run_loop-ticks}

instance abbrev steady : Rng ℕ Unit
steady = record { random = λ g. (0, g) }

instance abbrev sleepers : SimulationAgentLogic ℕ ℕ
sleepers = record {
  id = λ a. a;
  curr_act = λ a. none;
  advance_plan = λ now a. some a;
  end_time = λ a now. some now;
  wakeup_time = λ a now. some now;
  notify_event = λ event now a. some a;
}

abbrev nobody : ActivityEngine ℕ
nobody = record { asleep_q = record { q = []; counter = 0 }; awake_q = []; clock = seconds }

abbrev world : World ℕ ℕ Car Unit
world = record {
  activity_engine = nobody;
  leg_engine = legs;
  agents_changing_engine = [];
  senders = [] ∷ [] ∷ [];
  left = [];
  events = [];
}

abbrev two_ticks : Simulation ℕ Car
two_ticks = record { start_tick = 3; end_tick = 4; clock = seconds; mailbox = λ now. [] }

run_loop-ticks_example : run_loop two_ticks 3 10 3 world ≡ ticks two_ticks 10 2 3 world
run_loop-ticks_example = run_loop-ticks two_ticks 10 3 3 world (omega arith) (omega arith)
