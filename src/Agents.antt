-- ===== src/Agents.antt =====
-- rust_qsim/src/simulation/agents/agent_logic.rs: `PlanBasedSimulationLogic`, an agent that follows its plan. `none` is a
-- panic; where a method returns an `Option`, the inner `none` is its absent value.
pub mod Plan
pub mod Route
pub mod Tests
use parallel_qsim_rust.Prelude.{
  ℕ, suc, ◌+◌, ◌-◌, ◌%◌, Bool, true, false, not, ltb, ◌==◌, if◌then◌else◌, Option, none, some,
  ◌>>=◌, List, [], ◌∷◌, length, get_elem?, wrapping_add, wrapping_sub,
}
use parallel_qsim_rust.Time.{SimTime, time_saturating_add}
use parallel_qsim_rust.Population.{
  InternalActivity, InternalGenericRoute, InternalRoute, generic, network, pt, InternalLeg,
  InternalPlanElement, activity, leg, InternalPerson, plan_element_at, total_elements, as_activity,
  as_leg, as_network, cmp_end_time, travel_time,
}

pub data SimulationAgentState : Type 0 where
  in_leg in_activity stuck : SimulationAgentState

-- What an agent is told; the environment that some events carry is not part of them here.
pub data AgentEvent : Type 0 where
  activity_started : AgentEvent
  woke_up : (end_time : SimTime) → AgentEvent
  activity_finished teleportation_started teleportation_finished : AgentEvent
  network_leg_started left_link network_leg_finished : AgentEvent

pub record PlanBasedSimulationLogic (F : Type 0) : Type 0 where
  pub basic_agent_delegate : InternalPerson F
  pub curr_plan_element : ℕ
  pub curr_route_element : ℕ
  pub activity_end_time : Option SimTime

abbrev pub is_multiple_of_two : ℕ → Bool
is_multiple_of_two n = n % 2 == 0

abbrev pub is_none : {A : Type 0} → Option A → Bool
is_none none = true
is_none (some a) = false

module _ {F : Type 0} where
  unfoldable pub new : InternalPerson F → Option (PlanBasedSimulationLogic F)
  new person = do
    element ← plan_element_at person 0
    e ← element
    act ← as_activity e
    first_act_end ← cmp_end_time 0 act
    some (record {
      basic_agent_delegate = person;
      curr_plan_element = 0;
      curr_route_element = 0;
      activity_end_time = some first_act_end;
    })

  abbrev pub element_at : PlanBasedSimulationLogic F → ℕ → Option (InternalPlanElement F)
  element_at a i = plan_element_at a.basic_agent_delegate i >>= λ element. element

  unfoldable pub curr_act : PlanBasedSimulationLogic F → Option (InternalActivity F)
  curr_act a = element_at a a.curr_plan_element >>= as_activity

  unfoldable pub next_act : PlanBasedSimulationLogic F → Option (InternalActivity F)
  next_act a =
      let add = if is_multiple_of_two a.curr_plan_element then 2 else 1 in
      element_at a (wrapping_add a.curr_plan_element add) >>= as_activity

  unfoldable pub curr_leg : PlanBasedSimulationLogic F → Option (InternalLeg F)
  curr_leg a = element_at a a.curr_plan_element >>= as_leg

  unfoldable pub next_leg : PlanBasedSimulationLogic F → Option (Option (InternalLeg F))
  next_leg a =
      let add = if is_multiple_of_two a.curr_plan_element then 1 else 2 in
      plan_element_at a.basic_agent_delegate (wrapping_add a.curr_plan_element add) >>= λ element.
      some (element >>= as_leg)

  unfoldable pub state : PlanBasedSimulationLogic F → SimulationAgentState
  state a = if is_multiple_of_two a.curr_plan_element then in_activity else in_leg

  -- The end time behind a step of the plan.
  unfoldable pub set_end_time :
      SimTime
      → SimulationAgentState
      → PlanBasedSimulationLogic F
      → Option (PlanBasedSimulationLogic F)
  set_end_time now in_leg a = some (record a { activity_end_time = none })
  set_end_time now in_activity a = do
    act ← curr_act a
    end_time ← cmp_end_time now act
    some (record a { activity_end_time = some end_time })
  set_end_time now stuck a = some a

  unfoldable pub advance_plan :
      SimTime → PlanBasedSimulationLogic F → Option (PlanBasedSimulationLogic F)
  advance_plan now a = do
    let next = record a {
      curr_plan_element = wrapping_add a.curr_plan_element 1;
      curr_route_element = 0;
    }
    total ← total_elements a.basic_agent_delegate
    if ltb next.curr_plan_element total then set_end_time now (state next) next else none

  -- The two elements of a route that is no network route.
  abbrev pub end_of : InternalGenericRoute F → ℕ → Option (Option ℕ)
  end_of g i =
      if i == 0 then some (some g.start_link) else if i == 1 then some (some g.end_link) else none

  unfoldable pub link_at : InternalRoute F → ℕ → Option (Option ℕ)
  link_at (generic g) i = end_of g i
  link_at (network g route) i = some (get_elem? route i)
  link_at (pt g line route) i = end_of g i

  abbrev pub on_route : PlanBasedSimulationLogic F → Option (Option ℕ)
  on_route a = do l ← curr_leg a; route ← l.route; link_at route a.curr_route_element

  abbrev pub link_in : SimulationAgentState → PlanBasedSimulationLogic F → Option (Option ℕ)
  link_in in_leg a = on_route a
  link_in in_activity a = some none
  link_in stuck a = some none

  unfoldable pub curr_link_id : PlanBasedSimulationLogic F → Option (Option ℕ)
  curr_link_id a = link_in (state a) a

  unfoldable pub peek_next_link_id : PlanBasedSimulationLogic F → Option (Option ℕ)
  peek_next_link_id a = do
    l ← curr_leg a
    route ← l.route
    links ← as_network route
    some (get_elem? links (wrapping_add a.curr_route_element 1))

  unfoldable pub is_wanting_to_arrive_on_current_link : PlanBasedSimulationLogic F → Option Bool
  is_wanting_to_arrive_on_current_link a = peek_next_link_id a >>= λ next. some (is_none next)

  unfoldable pub wakeup_time : PlanBasedSimulationLogic F → SimTime → Option SimTime
  wakeup_time a now = a.activity_end_time

  abbrev pub element_end :
      PlanBasedSimulationLogic F → SimTime → InternalPlanElement F → Option SimTime
  element_end a now (activity act) = a.activity_end_time
  element_end a now (leg l) = travel_time l >>= time_saturating_add now

  unfoldable pub end_time : PlanBasedSimulationLogic F → SimTime → Option SimTime
  end_time a now = element_at a a.curr_plan_element >>= element_end a now

  abbrev pub last_element : InternalRoute F → ℕ
  last_element (generic g) = 1
  last_element (network g route) = wrapping_sub (length route) 1
  last_element (pt g line route) = 1

  unfoldable pub set_curr_route_element_to_last :
      PlanBasedSimulationLogic F → Option (PlanBasedSimulationLogic F)
  set_curr_route_element_to_last a = do
    l ← curr_leg a
    route ← l.route
    some (record a { curr_route_element = last_element route })

  unfoldable pub notify_event :
      AgentEvent → SimTime → PlanBasedSimulationLogic F → Option (PlanBasedSimulationLogic F)
  notify_event activity_started now a = some a
  notify_event (woke_up end_time) now a = some a
  notify_event activity_finished now a = some a
  notify_event teleportation_started now a = set_curr_route_element_to_last a
  notify_event teleportation_finished now a = some a
  notify_event network_leg_started now a = some a
  notify_event left_link now a =
      some (record a { curr_route_element = wrapping_add a.curr_route_element 1 })
  notify_event network_leg_finished now a = some a
