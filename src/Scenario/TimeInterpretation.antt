-- ===== src/Scenario/TimeInterpretation.antt =====
-- rust_qsim/src/simulation/time/time_interpretation.rs: when activities and legs end.
-- The outer `none` is a panic, the inner one the absent time. That two references are the same activity is that they
-- stand at the same index of the plan.
use parallel_qsim_rust.Prelude.{
  ℕ, zero, suc, ◌+◌, ◌≡◌, ◌∙◌, refl, ap, ◌==◌, if◌then◌else◌, Option, none, some, ◌>>=◌, List, [],
  ◌∷◌, take, get_elem?, arith,
}
use parallel_qsim_rust.Time.{SimTime, Duration, time_saturating_add}
use parallel_qsim_rust.Population.{
  InternalActivity, InternalLeg, InternalPlan, InternalPlanElement, activity, leg, as_generic,
}

pub record TimeInterpretation : Type 0 where
  pub simulation_start_time : SimTime

-- `?` on a time that may be absent.
abbrev pub try :
    Option (Option SimTime) → (SimTime → Option (Option SimTime)) → Option (Option SimTime)
try none f = none
try (some none) f = some none
try (some (some t)) f = f t

abbrev pub end_after : SimTime → Option Duration → Option (Option SimTime)
end_after start_time none = some none
end_after start_time (some duration) =
    time_saturating_add start_time duration >>= λ t. some (some t)

try-try :
    (r : Option (Option SimTime)) (f g h : SimTime → Option (Option SimTime))
    → ((t : SimTime) → f t ≡ try (g t) h)
    → try r f ≡ try (try r g) h
try-try none f g h same = refl
try-try (some none) f g h same = refl
try-try (some (some t)) f g h same = same t

module _ {F : Type 0} where
  unfoldable pub decide_on_activity_end_time :
      InternalActivity F → SimTime → Option (Option SimTime)
  decide_on_activity_end_time a start_time = elim a.end_time [
    | some end_time ↦ some (some end_time)
    | none ↦ end_after start_time a.max_dur
  ]

  unfoldable pub decide_on_leg_travel_time : InternalLeg F → Option Duration
  decide_on_leg_travel_time l = elim (l.route >>= λ route. (as_generic route).trav_time) [
    | some trav_time ↦ some trav_time
    | none ↦ l.trav_time
  ]

  unfoldable pub decide_on_element_end_time :
      InternalPlanElement F → SimTime → Option (Option SimTime)
  decide_on_element_end_time (activity a) start_time = decide_on_activity_end_time a start_time
  decide_on_element_end_time (leg l) start_time = end_after start_time (decide_on_leg_travel_time l)

  unfoldable pub decide_on_elements_end_time :
      List (InternalPlanElement F) → SimTime → Option (Option SimTime)
  decide_on_elements_end_time [] current_time = some (some current_time)
  decide_on_elements_end_time (e ∷ es) current_time =
      try (decide_on_element_end_time e current_time) (λ t. decide_on_elements_end_time es t)

  -- The activity that is at `index`, where the element is.
  abbrev pub found_at : (current index : ℕ) → InternalPlanElement F → Option (InternalActivity F)
  found_at current index (activity a) = if current == index then some a else none
  found_at current index (leg l) = none

  unfoldable pub end_time_along :
      (index current : ℕ) → List (InternalPlanElement F) → SimTime → Option (Option SimTime)
  end_time_along index current [] current_time = some none
  end_time_along index current (e ∷ es) current_time = elim (found_at current index e) [
    | some a ↦ decide_on_activity_end_time a current_time
    | none ↦
        try (decide_on_element_end_time e current_time)
          (λ t. end_time_along index (current + 1) es t)
  ]

  unfoldable pub decide_on_activity_end_time_along_plan :
      TimeInterpretation → (activity_index : ℕ) → InternalPlan F → Option (Option SimTime)
  decide_on_activity_end_time_along_plan i activity_index plan =
      end_time_along activity_index 0 plan.elements i.simulation_start_time

  found_other :
      (current index k : ℕ) (e : InternalPlanElement F)
      → index ≡ current + suc k
      → found_at current index e ≡ none
  found_other current index k (activity a) e = ground (arith, e)
  found_other current index k (leg l) e = refl

  along-take :
      (es : List (InternalPlanElement F)) (k index current : ℕ) (a : InternalActivity F)
      (t : SimTime)
      → index ≡ current + k
      → get_elem? es k ≡ some (activity a)
      → end_time_along index current es t
        ≡ try (decide_on_elements_end_time (take k es) t) (decide_on_activity_end_time a)
  unfolding end_time_along decide_on_elements_end_time
  along-take [] k index current a t e there = absurd (ground (arith, there))
  along-take (x ∷ es) zero index current a t e there =
      let is_a : x ≡ activity a = ground (arith, there) in
      let met : found_at current index x ≡ some a =
        ap (found_at current index) is_a ∙ ground (arith, e) in
      rw (met, end_time_along) refl
  along-take (x ∷ es) (suc k) index current a t e there =
      rw (found_other current index k x e, end_time_along)
        (try-try (decide_on_element_end_time x t) (end_time_along index (current + 1) es)
          (decide_on_elements_end_time (take k es)) (decide_on_activity_end_time a)
          (λ end. along-take es k index (current + 1) a end (omega (arith, e)) there))

  -- An activity of a plan ends when the elements before it, one after the other from the start of the simulation on,
  -- and then itself say so; where one of them has no end, it has none.
  pub decide_on_activity_end_time_along_plan-take :
      (i : TimeInterpretation) (plan : InternalPlan F) (k : ℕ) (a : InternalActivity F)
      → get_elem? plan.elements k ≡ some (activity a)
      → decide_on_activity_end_time_along_plan i k plan
        ≡ try
            (decide_on_elements_end_time (take k plan.elements) i.simulation_start_time)
            (decide_on_activity_end_time a)
  unfolding decide_on_activity_end_time_along_plan
  decide_on_activity_end_time_along_plan-take i plan k a there =
      along-take plan.elements k k 0 a i.simulation_start_time (omega arith) there
