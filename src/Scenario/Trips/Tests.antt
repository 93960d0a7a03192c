-- ===== src/Scenario/Trips/Tests.antt =====
-- scenario/trip_structure_utils.rs on a plan of two trips, the first of them with a stage.
use parallel_qsim_rust.Prelude.{
  ℕ, zero, suc, ◌<◌, false, ◌≤◌, ◌≡◌, refl, Bool, true, take, ◌==◌, none, some, List, [], ◌∷◌,
  get_elem?, arith,
}
use parallel_qsim_rust.Population.{InternalActivity, InternalPlanElement, activity, leg}
use parallel_qsim_rust.Routing.Graph.{get_range}
use parallel_qsim_rust.Scenario.TimeInterpretation.{
  try, decide_on_elements_end_time, decide_on_activity_end_time,
  decide_on_activity_end_time_along_plan, decide_on_activity_end_time_along_plan-take,
}
use parallel_qsim_rust.Scenario.Trips.{
  TripSpan, trip_loop, get_trip_spans, identify_main_mode, find_trip_span_starting_at_activity,
}
use parallel_qsim_rust.Scenario.Trips.Spans.{
  AreTrips, lists, boundary_at, get_trip_spans-AreTrips, get_trip_spans-lists,
}
use parallel_qsim_rust.Scenario.Trips.Replacing.{IsReplaced, replace_trip_elements-IsReplaced}

abbrev stay : ℕ → InternalActivity ℕ
stay act_type = record {
  act_type = act_type;
  link_id = 1;
  coord = none;
  end_time = none;
  max_dur = some 100;
  preplanning_horizon = none;
}

abbrev work : InternalActivity ℕ
work = stay 2

abbrev at_place : ℕ → InternalPlanElement ℕ
at_place act_type = activity (stay act_type)

abbrev on_the_way : ℕ → InternalPlanElement ℕ
on_the_way mode =
    leg (record { mode = mode; routing_mode = none; trav_time = some 20; route = none })

-- The type 9 is that of the stages.
abbrev is_stage : InternalActivity ℕ → Bool
is_stage a = a.act_type == 9

abbrev day : List (InternalPlanElement ℕ)
day =
    at_place 1
    ∷ on_the_way 3
    ∷ at_place 9
    ∷ on_the_way 4
    ∷ at_place 2
    ∷ on_the_way 3
    ∷ at_place 1
    ∷ []

abbrev span : ℕ → ℕ → TripSpan
span o d = record { origin_index = o; destination_index = d }

day_spans : get_trip_spans day is_stage ≡ span 0 4 ∷ span 4 6 ∷ []
unfolding get_trip_spans trip_loop
day_spans = refl

day_find : find_trip_span_starting_at_activity day 4 is_stage ≡ some (some (span 4 6))
unfolding find_trip_span_starting_at_activity get_range get_trip_spans trip_loop
day_find = refl

day_mode : identify_main_mode (on_the_way 3 ∷ []) ≡ some 3
unfolding identify_main_mode
day_mode = refl

get_trip_spans-AreTrips_example :
    AreTrips (λ k. boundary_at is_stage (get_elem? day k)) 0 (get_trip_spans day is_stage)
get_trip_spans-AreTrips_example = get_trip_spans-AreTrips day is_stage

inside_first : (k : ℕ) → 0 < k → k < 4 → boundary_at is_stage (get_elem? day k) ≡ false
inside_first zero above below = absurd (omega arith)
inside_first (suc zero) above below = refl
inside_first (suc (suc zero)) above below = refl
inside_first (suc (suc (suc zero))) above below = refl
inside_first (suc (suc (suc (suc k)))) above below = absurd (omega arith)

get_trip_spans-lists_example : 1 ≤ lists 0 4 (get_trip_spans day is_stage)
get_trip_spans-lists_example =
    get_trip_spans-lists day is_stage 0 4
      (record { starts = refl; ends = refl; apart = omega arith; inside = inside_first })

replace_trip_elements-IsReplaced_example : IsReplaced (span 0 4) day (on_the_way 5 ∷ [])
replace_trip_elements-IsReplaced_example =
    replace_trip_elements-IsReplaced (span 0 4) day (on_the_way 5 ∷ []) (omega arith) (omega arith)

decide_on_activity_end_time_along_plan-take_example :
    decide_on_activity_end_time_along_plan
      (record { simulation_start_time = 5 })
      4
      (record { selected = true; elements = day })
    ≡ try (decide_on_elements_end_time (take 4 day) 5) (decide_on_activity_end_time work)
decide_on_activity_end_time_along_plan-take_example =
    decide_on_activity_end_time_along_plan-take (record { simulation_start_time = 5 })
      (record { selected = true; elements = day }) 4 work refl
