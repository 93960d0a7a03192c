-- ===== src/Population.antt =====
-- rust_qsim/src/simulation/scenario/population.rs: persons and their plans, as far as a simulation step reads them.
-- `none` is a panic, or the absent value of an `Option`.
use parallel_qsim_rust.Prelude.{
  ℕ, Bool, if◌then◌else◌, Option, none, some, ◌>>=◌, List, [], ◌∷◌, length, get_elem?, u64_max,
}
use parallel_qsim_rust.Time.{SimTime, Duration, time_saturating_add}

pub record Coordinate (F : Type 0) : Type 0 where
  pub x : F
  pub y : F
  pub z : F

-- Of the attributes, the planning horizon.
pub record InternalActivity (F : Type 0) : Type 0 where
  pub act_type : ℕ
  pub link_id : ℕ
  pub coord : Option (Coordinate F)
  pub end_time : Option SimTime
  pub max_dur : Option Duration
  pub preplanning_horizon : Option ℕ

pub record InternalGenericRoute (F : Type 0) : Type 0 where
  pub start_link : ℕ
  pub end_link : ℕ
  pub trav_time : Option Duration
  pub distance : Option F
  pub vehicle : Option ℕ

-- A network route has its links, a public transport route its line and its route.
pub data InternalRoute (F : Type 0) : Type 0 where
  generic : InternalGenericRoute F → InternalRoute F
  network : InternalGenericRoute F → (route : List ℕ) → InternalRoute F
  pt : InternalGenericRoute F → (transit_line transit_route : ℕ) → InternalRoute F

pub record InternalLeg (F : Type 0) : Type 0 where
  pub mode : ℕ
  pub routing_mode : Option ℕ
  pub trav_time : Option Duration
  pub route : Option (InternalRoute F)

pub data InternalPlanElement (F : Type 0) : Type 0 where
  activity : InternalActivity F → InternalPlanElement F
  leg : InternalLeg F → InternalPlanElement F

pub record InternalPlan (F : Type 0) : Type 0 where
  pub selected : Bool
  pub elements : List (InternalPlanElement F)

pub record InternalPerson (F : Type 0) : Type 0 where
  pub id : ℕ
  pub plans : List (InternalPlan F)

abbrev pub end_from : Option SimTime → Option Duration → SimTime → Option SimTime
end_from (some end_time) max_dur begin = some end_time
end_from none (some max_dur) begin = time_saturating_add begin max_dur
end_from none none begin = some u64_max

module _ {F : Type 0} where
  abbrev pub find_selected : List (InternalPlan F) → Option (InternalPlan F)
  find_selected [] = none
  find_selected (p ∷ ps) = if p.selected then some p else find_selected ps

  unfoldable pub selected_plan : InternalPerson F → Option (InternalPlan F)
  selected_plan p = find_selected p.plans

  -- Panics without a selected plan; the inner `none` is an index out of range.
  unfoldable pub plan_element_at : InternalPerson F → ℕ → Option (Option (InternalPlanElement F))
  plan_element_at p index = selected_plan p >>= λ plan. some (get_elem? plan.elements index)

  unfoldable pub total_elements : InternalPerson F → Option ℕ
  total_elements p = selected_plan p >>= λ plan. some (length plan.elements)

  abbrev pub as_activity : InternalPlanElement F → Option (InternalActivity F)
  as_activity (activity a) = some a
  as_activity (leg l) = none

  abbrev pub as_leg : InternalPlanElement F → Option (InternalLeg F)
  as_leg (activity a) = none
  as_leg (leg l) = some l

  abbrev pub as_generic : InternalRoute F → InternalGenericRoute F
  as_generic (generic g) = g
  as_generic (network g route) = g
  as_generic (pt g line route) = g

  abbrev pub as_network : InternalRoute F → Option (List ℕ)
  as_network (generic g) = none
  as_network (network g route) = some route
  as_network (pt g line route) = none

  unfoldable pub cmp_end_time : SimTime → InternalActivity F → Option SimTime
  cmp_end_time begin a = end_from a.end_time a.max_dur begin

  abbrev pub time_from : Option Duration → Option (InternalRoute F) → Option Duration
  time_from (some t) route = some t
  time_from none none = none
  time_from none (some r) = (as_generic r).trav_time

  unfoldable pub travel_time : InternalLeg F → Option Duration
  travel_time l = time_from l.trav_time l.route
