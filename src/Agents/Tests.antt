-- ===== src/Agents/Tests.antt =====
-- Runs of the agents under rust_qsim/src/simulation/agents: somebody drives from home over three links to work.
use parallel_qsim_rust.Prelude.{
  ℕ, zero, suc, ◌≡◌, refl, true, false, ◌⊎◌, none, some, [], ◌∷◌, arith, u64_max,
}
use parallel_qsim_rust.Population.{
  InternalActivity, InternalGenericRoute, InternalRoute, network, InternalLeg, activity, leg,
  InternalPlan, InternalPerson, selected_plan, plan_element_at, cmp_end_time,
}
use parallel_qsim_rust.Agents.{
  PlanBasedSimulationLogic, teleportation_started, state, curr_leg, curr_link_id, advance_plan,
  notify_event,
}
use parallel_qsim_rust.Agents.Plan.{
  IsValid, IsAlternating, HasEnds, IsAdvanced, StandsAt, advance_plan-IsAdvanced,
}
use parallel_qsim_rust.Agents.Route.{
  IsOnLeg, drive, drive-route, destination, teleportation_started-destination,
}

-- f64 is a number of meters.
abbrev pub home : InternalActivity ℕ
home = record {
  act_type = 0;
  link_id = 1;
  coord = some (record { x = 0; y = 0; z = 0 });
  end_time = some 100;
  max_dur = none;
  preplanning_horizon = none;
}

abbrev pub work : InternalActivity ℕ
work = record home { act_type = 1; link_id = 3; end_time = none }

abbrev pub ends : InternalGenericRoute ℕ
ends = record { start_link = 1; end_link = 3; trav_time = none; distance = none; vehicle = some 7 }

abbrev pub way : InternalRoute ℕ
way = network ends (1 ∷ 2 ∷ 3 ∷ [])

abbrev pub drive_to_work : InternalLeg ℕ
drive_to_work = record { mode = 0; routing_mode = some 0; trav_time = none; route = some way }

abbrev pub plan : InternalPlan ℕ
plan = record { selected = true; elements = activity home ∷ leg drive_to_work ∷ activity work ∷ [] }

abbrev pub somebody : InternalPerson ℕ
somebody = record { id = 5; plans = plan ∷ [] }

abbrev pub at_home : PlanBasedSimulationLogic ℕ
at_home = record {
  basic_agent_delegate = somebody;
  curr_plan_element = 0;
  curr_route_element = 0;
  activity_end_time = some 100;
}

abbrev pub under_way : PlanBasedSimulationLogic ℕ
under_way = record at_home { curr_plan_element = 1; activity_end_time = none }

pub plan-IsAlternating : IsAlternating plan.elements
plan-IsAlternating zero e h = ground arith
plan-IsAlternating (suc zero) e h = ground arith
plan-IsAlternating (suc (suc zero)) e h = ground arith
plan-IsAlternating (suc (suc (suc i))) e h = cc

at_home-IsValid : IsValid at_home plan
unfolding selected_plan
at_home-IsValid = record {
  selected = refl;
  short = omega arith;
  alternating = plan-IsAlternating;
  within = omega arith;
  timed = (100, refl);
}

plan_ends : HasEnds 100 plan
unfolding cmp_end_time
plan_ends zero act h = (100, ground (arith, h))
plan_ends (suc zero) act h = cc
plan_ends (suc (suc zero)) act h = (u64_max, ground (arith, h))
plan_ends (suc (suc (suc i))) act h = cc

advance_plan-IsAdvanced_example :
    ((advance_plan 100 at_home ≡ none) × (◌≡◌ {A = ℕ} 1 3))
    ⊎ ((a' : PlanBasedSimulationLogic ℕ) × (advance_plan 100 at_home ≡ some a')
        × IsAdvanced plan at_home a'
        × StandsAt a' false)
advance_plan-IsAdvanced_example = advance_plan-IsAdvanced 100 plan at_home at_home-IsValid plan_ends

under_way-IsOnLeg : IsOnLeg under_way drive_to_work way
unfolding state curr_leg plan_element_at selected_plan
under_way-IsOnLeg = record { on_leg = refl; leg = refl; route = refl }

drive-route_example : drive 3 under_way ≡ some (1 ∷ 2 ∷ 3 ∷ [])
drive-route_example =
    drive-route 3 1 (2 ∷ 3 ∷ []) under_way drive_to_work ends under_way-IsOnLeg refl (omega arith)
      (omega arith)

teleportation_started-destination_example :
    (a' : PlanBasedSimulationLogic ℕ) × (notify_event teleportation_started 100 under_way ≡ some a')
    × (curr_link_id a' ≡ some (destination way))
teleportation_started-destination_example =
    teleportation_started-destination 100 under_way drive_to_work way under_way-IsOnLeg
      (omega arith)
