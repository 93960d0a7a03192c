-- ===== src/Simulation.antt =====
-- rust_qsim/src/simulation/simulation.rs: the loop over the ticks, with the activity engine and the leg engine in each.
-- What a thread publishes is part of a result, and the messages of the neighbours arrive by `mailbox`, those of each
-- tick behind those that are left. Log lines are left out.
pub mod Ticks
pub mod Tests
use parallel_qsim_rust.Prelude.{
  ℕ, zero, suc, Bool, leb, if◌then◌else◌, Option, none, some, ◌>>=◌, List, [], ◌∷◌, ◌++◌, map,
}
use parallel_qsim_rust.Time.{Tick, SimTime, SimClock, tick_to_time, tick_to_secs, tick_next}
use parallel_qsim_rust.Float.{F64, Vehicle}
use parallel_qsim_rust.Network.Nodes.{Rng, Run, ok, panics, out_of_fuel, lift, and_then}
use parallel_qsim_rust.Messaging.Messages.{SimMessage}
use parallel_qsim_rust.Messaging.Broker.{Senders}
use parallel_qsim_rust.Engines.Activity
use parallel_qsim_rust.Engines.Activity.{ActivityEngine, ActivityEvent, SimulationAgentLogic}
use parallel_qsim_rust.Engines.Network.{Passengers}
use parallel_qsim_rust.Engines.Teleportation.{Teleported, IdStore}
use parallel_qsim_rust.Engines.Leg.Departure.{LegAgent, LegVehicle, LegEvent}
use parallel_qsim_rust.Engines.Leg.Passing.{LegEngine}
use parallel_qsim_rust.Engines.Leg.Step
use parallel_qsim_rust.Engines.Leg.Step.{Stepped, stepped, blocked}
use parallel_qsim_rust.Engines.Leg.Draining

pub data SimEvent (F : Type 0) : Type 0 where
  before_sim_step after_sim_step : SimTime → SimEvent F
  of_activities : ActivityEvent F → SimEvent F
  of_legs : LegEvent F → SimEvent F

-- The engines, the agents that change between them, and what a partition shares with its neighbours.
pub record World (F A V R : Type 0) : Type 0 where
  pub activity_engine : ActivityEngine A
  pub leg_engine : LegEngine F V R
  pub agents_changing_engine : List A
  pub senders : Senders F V
  pub left : List (SimMessage F V)
  pub events : List (SimEvent F)

-- `waiting` for a message of a neighbour, for ever where none comes.
pub data Progress (F A V R : Type 0) : Type 0 where
  moved : World F A V R → Progress F A V R
  waiting : Progress F A V R

pub record Simulation (F V : Type 0) : Type 0 where
  pub start_tick : Tick
  pub end_tick : Tick
  pub clock : SimClock
  pub mailbox : Tick → List (SimMessage F V)

module _ {F A V R : Type 0} ⦃f : F64 F⦄ ⦃v : Vehicle F V⦄ ⦃r : Rng F R⦄ ⦃t : Teleported F V⦄
    ⦃ps : Passengers V⦄ ⦃ids : IdStore⦄ ⦃l : LegAgent F A⦄ ⦃w : LegVehicle F A V⦄
    ⦃a : SimulationAgentLogic F A⦄ where
  -- The activities before the legs: an agent that ends its leg starts its activity in the next tick.
  unfoldable pub do_sim_step :
      ℕ → Tick → List (SimMessage F V) → World F A V R → Run (Progress F A V R)
  do_sim_step fuel now arrivals s =
      and_then (lift (Activity.do_step F now s.agents_changing_engine s.activity_engine))
        λ (act_to_leg, activities, acted).
          and_then (Step.do_step fuel now (s.left ++ arrivals) s.senders act_to_leg s.leg_engine)
            λ done. elim done [
              | blocked ↦ ok waiting
              | stepped leg ↦ ok (
                  moved (record {
                    activity_engine = activities;
                    leg_engine = leg.engine;
                    agents_changing_engine = leg.agents;
                    senders = leg.senders;
                    left = leg.left;
                    events = s.events ++ (map of_activities acted ++ map of_legs leg.events);
                  }))
            ]

  abbrev pub publish : SimEvent F → World F A V R → World F A V R
  publish event s = record s { events = s.events ++ event ∷ [] }

  -- The body of the loop.
  unfoldable pub tick : Simulation F V → ℕ → Tick → World F A V R → Run (Progress F A V R)
  unfolding do_sim_step
  tick sim fuel now s = and_then (lift (tick_to_time sim.clock now)) λ now_time.
      and_then (lift (tick_to_secs sim.clock now)) λ outward_now.
        and_then (do_sim_step fuel now (sim.mailbox now) (publish (before_sim_step now_time) s))
          λ done. elim done [
            | waiting ↦ ok waiting
            | moved s' ↦ ok (moved (publish (after_sim_step now_time) s'))
          ]

  -- The `while` loop on fuel, besides the fuel of the nodes.
  unfoldable pub run_loop :
      Simulation F V → (rounds fuel : ℕ) → Tick → World F A V R → Run (Progress F A V R)
  unfolding tick
  run_loop sim zero fuel now s = out_of_fuel
  run_loop sim (suc rounds) fuel now s = elim (leb now sim.end_tick) [
    | Bool.false ↦ ok (moved s)
    | Bool.true ↦ and_then (tick sim fuel now s) λ done. elim done [
      | waiting ↦ ok waiting
      | moved s' ↦ run_loop sim rounds fuel (tick_next now) s'
    ]
  ]

  -- Activities, legs, and the agents between them.
  unfoldable pub drain_all : World F A V R → Option (List A)
  drain_all s = do
    let (active, _) = Activity.drain s.activity_engine
    (travelling, _) ← Draining.drain s.leg_engine
    some (active ++ (travelling ++ s.agents_changing_engine))

  unfoldable pub run : Simulation F V → (rounds fuel : ℕ) → World F A V R → Run (Option (List A))
  unfolding run_loop drain_all
  run sim rounds fuel s = and_then (lift (tick_to_secs sim.clock sim.start_tick)) λ start_time.
      and_then (lift (tick_to_secs sim.clock sim.end_tick)) λ end_time.
        and_then (run_loop sim rounds fuel sim.start_tick s) λ done. elim done [
          | waiting ↦ ok none
          | moved s' ↦ and_then (lift (drain_all s')) λ agents. ok (some agents)
        ]
