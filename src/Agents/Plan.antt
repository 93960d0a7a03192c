-- ===== src/Agents/Plan.antt =====
-- rust_qsim/src/simulation/agents/agent_logic.rs: an agent as a state machine over its plan.
use parallel_qsim_rust.Prelude.{
  ℕ, zero, suc, not, ltb, ◌<◌, ◌≡◌, refl, ap, ◌∙◌, subst, ◌⊎◌, inl, inr, Bool, true, false,
  if◌then◌else◌, none, some, List, [], ◌∷◌, length, get_elem?, arith, Bool-cases, u64_mod,
  wrapping_add,
}
use parallel_qsim_rust.Time.{SimTime}
use parallel_qsim_rust.Population.{
  InternalActivity, InternalLeg, InternalPlanElement, activity, leg, InternalPlan, selected_plan,
  plan_element_at, total_elements, cmp_end_time,
}
use parallel_qsim_rust.Agents.{
  PlanBasedSimulationLogic, in_leg, in_activity, is_multiple_of_two, state, curr_act, curr_leg,
  curr_link_id, advance_plan, set_end_time, element_at,
}

abbrev pub is_activity : {F : Type 0} → InternalPlanElement F → Bool
is_activity (activity a) = true
is_activity (leg l) = false

-- Activities and legs alternate, from an activity on.
abbrev pub IsAlternating : {F : Type 0} → List (InternalPlanElement F) → Type 0
IsAlternating {F} es =
    (i : ℕ) (e : InternalPlanElement F)
    → get_elem? es i ≡ some e
    → is_activity e ≡ is_multiple_of_two i

in_range : {A : Type 0} (xs : List A) (i : ℕ) → i < length xs → (a : A) × (get_elem? xs i ≡ some a)
in_range [] i h = absurd (omega arith)
in_range (x ∷ xs) zero h = (x, refl)
in_range (x ∷ xs) (suc i) h = in_range xs i (omega arith)

pub parity : (n : ℕ) → is_multiple_of_two (suc n) ≡ not (is_multiple_of_two n)
parity n = ground arith

as_act :
    {F : Type 0} (e : InternalPlanElement F)
    → is_activity e ≡ true
    → (act : InternalActivity F) × (e ≡ activity act)
as_act (activity a) h = (a, refl)
as_act (leg l) h = cc

module _ {F : Type 0} where
  -- The agent stands at an element of an alternating plan; in an activity it has an end time, on a leg it has none.
  pub record IsValid (a : PlanBasedSimulationLogic F) (plan : InternalPlan F) : Type 0 where
    pub selected : selected_plan a.basic_agent_delegate ≡ some plan
    pub short : length plan.elements < u64_mod
    pub alternating : IsAlternating plan.elements
    pub within : a.curr_plan_element < length plan.elements
    pub timed :
        if is_multiple_of_two a.curr_plan_element
        then ((t : SimTime) × (a.activity_end_time ≡ some t))
        else (a.activity_end_time ≡ none)

  -- The activity or the leg at which an agent stands.
  pub data StandsAt (a : PlanBasedSimulationLogic F) : Bool → Type 0 where
    at_activity :
        (act : InternalActivity F)
        → state a ≡ in_activity
        → curr_act a ≡ some act
        → curr_leg a ≡ none
        → curr_link_id a ≡ some none
        → StandsAt a true
    at_leg :
        (l : InternalLeg F)
        → state a ≡ in_leg
        → curr_leg a ≡ some l
        → curr_act a ≡ none
        → StandsAt a false

  element_found :
      (a : PlanBasedSimulationLogic F) (plan : InternalPlan F)
      → IsValid a plan
      → (e : InternalPlanElement F) × (element_at a a.curr_plan_element ≡ some e)
        × (is_activity e ≡ is_multiple_of_two a.curr_plan_element)
  unfolding plan_element_at
  element_found a plan h =
      let (e, found) = in_range plan.elements a.curr_plan_element h.within in
      (e, ground (arith, h.selected, found), h.alternating a.curr_plan_element e found)

  -- The activity of an agent that is in one.
  pub activity_found :
      (a : PlanBasedSimulationLogic F) (plan : InternalPlan F)
      → IsValid a plan
      → is_multiple_of_two a.curr_plan_element ≡ true
      → (act : InternalActivity F) × (get_elem? plan.elements a.curr_plan_element
          ≡ some (activity act))
        × (element_at a a.curr_plan_element ≡ some (activity act))
  unfolding plan_element_at
  activity_found a plan h even =
      let (e, found) = in_range plan.elements a.curr_plan_element h.within in
      let (act, this) = as_act e (h.alternating a.curr_plan_element e found ∙ even) in
      (act, found ∙ ap some this, ground (arith, h.selected, found, this))

  stands :
      (a : PlanBasedSimulationLogic F) (e : InternalPlanElement F)
      → element_at a a.curr_plan_element ≡ some e
      → is_activity e ≡ is_multiple_of_two a.curr_plan_element
      → StandsAt a (is_multiple_of_two a.curr_plan_element)
  unfolding state curr_act curr_leg curr_link_id
  stands a (activity act) found parity = subst (StandsAt a) parity (
      at_activity act (ground (arith, parity)) (rw found refl) (rw found refl)
        (ground (arith, parity)))
  stands a (leg l) found parity =
      subst (StandsAt a) parity (at_leg l (ground (arith, parity)) (rw found refl) (rw found refl))

  pub IsValid-StandsAt :
      (a : PlanBasedSimulationLogic F) (plan : InternalPlan F)
      → IsValid a plan
      → StandsAt a (is_multiple_of_two a.curr_plan_element)
  IsValid-StandsAt a plan h =
      let (e, found, parity) = element_found a plan h in stands a e found parity

  -- Every activity of the plan has an end when it begins at `now`.
  abbrev pub HasEnds : SimTime → InternalPlan F → Type 0
  HasEnds now plan =
      (i : ℕ) (act : InternalActivity F)
      → get_elem? plan.elements i ≡ some (activity act)
      → (t : SimTime) × (cmp_end_time now act ≡ some t)

  abbrev next_element : PlanBasedSimulationLogic F → PlanBasedSimulationLogic F
  next_element a = record a { curr_plan_element = suc a.curr_plan_element; curr_route_element = 0 }

  -- What an agent is behind a step of its plan.
  pub record IsAdvanced (plan : InternalPlan F) (a a' : PlanBasedSimulationLogic F) : Type 0 where
    pub valid : IsValid a' plan
    pub next : a'.curr_plan_element ≡ suc a.curr_plan_element
    pub at_start : a'.curr_route_element ≡ 0
    pub same_person : a'.basic_agent_delegate ≡ a.basic_agent_delegate

  advance_at :
      (now : SimTime) (plan : InternalPlan F) (a : PlanBasedSimulationLogic F)
      (e : InternalPlanElement F)
      → IsValid a plan
      → HasEnds now plan
      → suc a.curr_plan_element < length plan.elements
      → get_elem? plan.elements (suc a.curr_plan_element) ≡ some e
      → (a' : PlanBasedSimulationLogic F) × (set_end_time now
            (state (next_element a))
            (next_element a)
          ≡ some a')
        × IsAdvanced plan a a'
  unfolding set_end_time state curr_act plan_element_at
  advance_at now plan a (activity act) h ends more found =
      let even : true ≡ is_multiple_of_two (suc a.curr_plan_element) = h.alternating _ _ found in
      let (t, e) = ends _ act found in
      (
        record (next_element a) { activity_end_time = some t },
        rw (← even) (ground (arith, h.selected, found, e)),
        record {
          valid = record {
            selected = h.selected;
            short = h.short;
            alternating = h.alternating;
            within = more;
            timed = rw (← even) (t, refl);
          };
          next = refl;
          at_start = refl;
          same_person = refl;
        },
      )
  advance_at now plan a (leg l) h ends more found =
      let odd : false ≡ is_multiple_of_two (suc a.curr_plan_element) = h.alternating _ _ found in
      (
        record (next_element a) { activity_end_time = none },
        rw (← odd) refl,
        record {
          valid = record {
            selected = h.selected;
            short = h.short;
            alternating = h.alternating;
            within = more;
            timed = rw (← odd) refl;
          };
          next = refl;
          at_start = refl;
          same_person = refl;
        },
      )

  -- Take an agent that stands at an element of a plan of fewer than 2^64 elements in which activities and legs alternate, has an end
  -- time exactly in an activity, and whose activities have an end when they begin now. `advance_plan` panics exactly
  -- at the last element. Otherwise the agent stands at the next element, at the start of its route and in the
  -- same way again: in an activity if it was on a leg, where there is no leg and no current link, and on a
  -- leg if it was in an activity.
  pub advance_plan-IsAdvanced :
      (now : SimTime) (plan : InternalPlan F) (a : PlanBasedSimulationLogic F)
      → IsValid a plan
      → HasEnds now plan
      → ((advance_plan now a ≡ none) × (suc a.curr_plan_element ≡ length plan.elements))
        ⊎ ((a' : PlanBasedSimulationLogic F) × (advance_plan now a ≡ some a')
            × IsAdvanced plan a a'
            × StandsAt a' (not (is_multiple_of_two a.curr_plan_element)))
  unfolding advance_plan total_elements
  advance_plan-IsAdvanced now plan a h ends =
      let step : wrapping_add a.curr_plan_element 1 ≡ suc a.curr_plan_element =
        omega (arith, h.within, h.short) in
      elim (Bool-cases (ltb (suc a.curr_plan_element) (length plan.elements))) [
        | inl more ↦
            let (e, found) =
              in_range plan.elements (suc a.curr_plan_element) (ground (arith, more)) in
            let (a', done, advanced) =
              advance_at now plan a e h ends (ground (arith, more)) found in
            inr (
              a',
              rw (h.selected, step, more) done,
              advanced,
              subst (StandsAt a') (ap is_multiple_of_two advanced.next ∙ parity a.curr_plan_element)
                  (IsValid-StandsAt a' plan advanced.valid),
            )
        | inr last ↦ inl (rw (h.selected, step, last) refl, ground (arith, last, h.within))
      ]
