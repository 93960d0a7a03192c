-- ===== src/Engines/Activity/PlanBased.antt =====
-- The agents of rust_qsim/src/simulation/agents/agent_logic.rs that follow their plan, as the activity engine
-- (rust_qsim/src/simulation/engines/activity_engine.rs) sees them.
use parallel_qsim_rust.Prelude.{
  ℕ, suc, ◌<◌, ◌≡◌, refl, ap, ◌∙◌, subst, true, false, not, if◌then◌else◌, none, some, length,
  get_elem?, arith, inl, inr,
}
use parallel_qsim_rust.Time.{SimTime}
use parallel_qsim_rust.Population.{Coordinate, InternalActivity, activity, InternalPlan}
use parallel_qsim_rust.Agents
use parallel_qsim_rust.Agents.{PlanBasedSimulationLogic, is_multiple_of_two}
use parallel_qsim_rust.Agents.Plan.{
  IsValid, HasEnds, activity_found, advance_plan-IsAdvanced, parity,
}
use parallel_qsim_rust.Engines.Activity.{SimulationAgentLogic}
use parallel_qsim_rust.Engines.Activity.Responses.{AreResponsive}

instance abbrev pub plan_based : {F : Type 0} → SimulationAgentLogic F (PlanBasedSimulationLogic F)
plan_based = record {
  id = λ a. a.basic_agent_delegate.id;
  curr_act = Agents.curr_act;
  advance_plan = Agents.advance_plan;
  end_time = Agents.end_time;
  wakeup_time = Agents.wakeup_time;
  notify_event = Agents.notify_event;
}

module _ {F : Type 0} where
  -- Every activity of the plan has a coordinate.
  abbrev pub IsLocated : InternalPlan F → Type 0
  IsLocated plan =
      (i : ℕ) (act : InternalActivity F)
      → get_elem? plan.elements i ≡ some (activity act)
      → (c : Coordinate F) × (act.coord ≡ some c)

  -- The agent is in an activity of its plan.
  abbrev pub IsStaying : PlanBasedSimulationLogic F → Type 0
  IsStaying a =
      (plan : InternalPlan F) × IsValid a plan
      × IsLocated plan
      × (is_multiple_of_two a.curr_plan_element ≡ true)

  -- The agent is on a leg of its plan, behind which an activity follows.
  abbrev pub IsArriving : SimTime → PlanBasedSimulationLogic F → Type 0
  IsArriving now a =
      (plan : InternalPlan F) × IsValid a plan
      × IsLocated plan
      × HasEnds now plan
      × (is_multiple_of_two a.curr_plan_element ≡ false)
      × (suc a.curr_plan_element < length plan.elements)

  arrive :
      (now : SimTime) (a : PlanBasedSimulationLogic F)
      → IsArriving now a
      → (a' : PlanBasedSimulationLogic F) × (Agents.advance_plan now a ≡ some a')
        × IsStaying a'
        × (a'.basic_agent_delegate.id ≡ a.basic_agent_delegate.id)
  arrive now a (plan, valid, located, ends, odd, more) =
      elim (advance_plan-IsAdvanced now plan a valid ends) [
        | inl (_, last) ↦ absurd (omega (arith, last, more))
        | inr (a', done, advanced, _) ↦ (
          a',
          done,
          (
            plan,
            advanced.valid,
            located,
            ap is_multiple_of_two advanced.next ∙ parity a.curr_plan_element ∙ ap not odd,
          ),
          ap (λ p. p.id) advanced.same_person,
        )
      ]

  act :
      (a : PlanBasedSimulationLogic F)
      → IsStaying a
      → (x : InternalActivity F) × (c : Coordinate F) × (Agents.curr_act a ≡ some x)
        × (x.coord ≡ some c)
  unfolding Agents.curr_act
  act a (plan, valid, located, even) =
      let (x, found, at) = activity_found a plan valid even in
      let (c, there) = located a.curr_plan_element x found in (x, c, rw at refl, there)

  end_known :
      (a : PlanBasedSimulationLogic F)
      → IsStaying a
      → (s : SimTime) × (a.activity_end_time ≡ some s)
  end_known a (plan, valid, located, even) =
      subst
        (λ b.
          if b
          then ((s : SimTime) × (a.activity_end_time ≡ some s))
          else (a.activity_end_time ≡ none))
        even valid.timed

  end_of_activity :
      (a : PlanBasedSimulationLogic F) (t : SimTime)
      → IsStaying a
      → (s : SimTime) × (Agents.end_time a t ≡ some s)
  unfolding Agents.end_time
  end_of_activity a t h =
      let (plan, valid, located, even) = h in
      let (x, found, at) = activity_found a plan valid even in
      let (s, e) = end_known a h in (s, rw at e)

  -- Agents that follow a plan of located activities, each with an end when it begins now, fulfil what the activity
  -- engine asks of agents: those that arrive from a leg and those in an activity.
  pub plan_based-AreResponsive : (now : SimTime) → AreResponsive F (IsArriving now) IsStaying now
  unfolding Agents.wakeup_time Agents.notify_event
  plan_based-AreResponsive now = record {
    advances = arrive now;
    acts = act;
    wakes = λ a t h. end_known a h;
    ends = end_of_activity;
    starts = λ a h. (a, refl, h, refl);
    woken = λ a t h. (a, refl, h, refl);
    finishes = λ a h. (a, refl, h, refl);
  }
