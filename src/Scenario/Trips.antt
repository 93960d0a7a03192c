-- ===== src/Scenario/Trips.antt =====
-- rust_qsim/src/simulation/scenario/trip_structure_utils.rs: the trips of a plan, between activities that are not stages.
-- `none` is a panic, but for `identify_main_mode` and `find_trip_span_starting_at_activity`, where the source has an
-- `Option`: there the outer `none` is the panic. A mode stands for its name.
pub mod Spans
pub mod Replacing
mod Tests
use parallel_qsim_rust.Prelude.{
  ℕ, suc, ◌+◌, Bool, true, false, not, ◌==◌, ltb, if◌then◌else◌, Option, none, some, ◌>>=◌, List,
  [], ◌∷◌, ◌++◌, take, get_elem?, length,
}
use parallel_qsim_rust.Routing.Graph.{drop, get_range}
use parallel_qsim_rust.Population.{
  InternalActivity, InternalLeg, InternalPlanElement, as_activity, as_leg,
}

pub record TripSpan : Type 0 where
  pub origin_index : ℕ
  pub destination_index : ℕ

abbrev pub first_shifted : ℕ → List TripSpan → Option TripSpan
first_shifted start_index [] = none
first_shifted start_index (s ∷ spans) = some (record {
  origin_index = start_index + s.origin_index;
  destination_index = start_index + s.destination_index;
})

-- At a boundary: the trip up to it, if there is something between, before the trips that start there or later.
abbrev pub restart : ℕ → Option ℕ → List TripSpan → List TripSpan
restart current_index none later = later
restart current_index (some o) later =
    if ltb (o + 1) current_index
    then record { origin_index = o; destination_index = current_index } ∷ later
    else later

module _ {F : Type 0} where
  abbrev pub first_leg : List (InternalPlanElement F) → Option (InternalLeg F)
  first_leg es = do e ← get_elem? es 0; as_leg e

  -- The routing mode of the first leg, or the mode of a leg that is alone.
  unfoldable pub identify_main_mode : List (InternalPlanElement F) → Option ℕ
  identify_main_mode trip_elements =
      let alone : Option ℕ =
        if length trip_elements == 1
        then (first_leg trip_elements >>= λ l. some l.mode)
        else none in
      elim (first_leg trip_elements >>= λ l. l.routing_mode) [
        | some mode ↦ some mode
        | none ↦ alone
      ]

  unfoldable pub activity_at : List (InternalPlanElement F) → ℕ → Option (InternalActivity F)
  activity_at plan_elements index = do e ← get_elem? plan_elements index; as_activity e

  unfoldable pub origin : TripSpan → List (InternalPlanElement F) → Option (InternalActivity F)
  origin s plan_elements = activity_at plan_elements s.origin_index

  unfoldable pub destination : TripSpan → List (InternalPlanElement F) → Option (InternalActivity F)
  destination s plan_elements = activity_at plan_elements s.destination_index

  unfoldable pub trip_elements :
      TripSpan → List (InternalPlanElement F) → Option (List (InternalPlanElement F))
  trip_elements s plan_elements = get_range (s.origin_index + 1) s.destination_index plan_elements

  -- `splice` panics where the slice of its range does.
  unfoldable pub replace_trip_elements :
      TripSpan
      → (plan_elements new_elements : List (InternalPlanElement F))
      → Option (TripSpan × List (InternalPlanElement F))
  replace_trip_elements s plan_elements new_elements = do
    _ ← get_range (s.origin_index + 1) s.destination_index plan_elements
    some (
      record {
        origin_index = s.origin_index;
        destination_index = s.origin_index + length new_elements + 1;
      },
      take (s.origin_index + 1) plan_elements
          ++ new_elements
          ++ drop s.destination_index plan_elements,
    )

  abbrev pub legs_of : List (InternalPlanElement F) → List (InternalLeg F)
  legs_of [] = []
  legs_of (e ∷ es) = let rest = legs_of es in elim (as_leg e) [ none ↦ rest | some l ↦ l ∷ rest ]

  unfoldable pub legs : TripSpan → List (InternalPlanElement F) → Option (List (InternalLeg F))
  legs s plan_elements = do es ← trip_elements s plan_elements; some (legs_of es)

  -- Whether the element is an activity, and no stage.
  abbrev pub is_boundary : (InternalActivity F → Bool) → InternalPlanElement F → Bool
  is_boundary is_stage_activity e = elim (as_activity e) [
    | none ↦ false
    | some a ↦ not (is_stage_activity a)
  ]

  -- The loop from the element at `current_index` on; no origin yet is the index -1.
  unfoldable pub trip_loop :
      (InternalActivity F → Bool)
      → List (InternalPlanElement F)
      → (current_index : ℕ) → (origin_activity_index : Option ℕ) → List TripSpan
  trip_loop stage [] current_index from = []
  trip_loop stage (e ∷ es) current_index from =
      let passed = trip_loop stage es (current_index + 1) from in
      let restarted = trip_loop stage es (current_index + 1) (some current_index) in
      if is_boundary stage e then restart current_index from restarted else passed

  unfoldable pub get_trip_spans :
      List (InternalPlanElement F) → (InternalActivity F → Bool) → List TripSpan
  get_trip_spans plan_elements stage = trip_loop stage plan_elements 0 none

  unfoldable pub find_trip_span_starting_at_activity :
      List (InternalPlanElement F)
      → (start_index : ℕ) → (InternalActivity F → Bool)
      → Option (Option TripSpan)
  find_trip_span_starting_at_activity plan_elements start_index stage = do
    rest ← get_range start_index (length plan_elements) plan_elements
    some (first_shifted start_index (get_trip_spans rest stage))
