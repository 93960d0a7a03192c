-- ===== src/Routing/Search/Actions.antt =====
-- a_star_core.rs: the two uses of the search, for landmarks and for routes.
use parallel_qsim_rust.Prelude.{
  ℕ, zero, suc, [], ◌∷◌, false, ◌==◌, ltb, if◌then◌else◌, Option, none, some, List, length,
  get_elem?, u64_max, saturating_sub,
}
use parallel_qsim_rust.Time.{SimTime, Duration, time_saturating_add}
use parallel_qsim_rust.Scenario.RoadNetwork.{Link}
use parallel_qsim_rust.Routing.Graph.{Result, ok, panic, unwrap, ◌>>=◌}
use parallel_qsim_rust.Routing.Search.Core.{
  AStarActions, AStarCoreResult, disutility_to_all_without_parents, single_disutil_with_parents,
  set,
}

-- `xs[i] = v`.
unfoldable pub set_at : {A : Type 0} → List A → ℕ → A → Result (List A)
set_at xs i v = if ltb i (length xs) then ok (set xs i v) else panic

-- For the person and the vehicle of the request.
pub record LinkCosts (F : Type 0) : Type 0 where
  pub travel_time : Link F → SimTime → Duration
  pub travel_disutility : Link F → SimTime → F
  pub get_link_min_travel_disutility : Link F → F

-- `LandmarkCalcAStarActions` keeps no state.
unfoldable pub landmark_actions : {F : Type 0} → LinkCosts F → AStarActions F (Unit {0})
landmark_actions costs = record {
  reached_end = λ _ _. false;
  set_parent_link_opt = λ o _ _. ok o;
  build_result = λ _ _ _ disutilities. ok (disutility_to_all_without_parents disutilities);
  get_to_node_opt = λ _. none;
  set_arrival_time_opt = λ o _ _. ok o;
  set_arrival_time_at_neighbour_opt = λ o _ _ _. ok o;
  get_disutility_of_link = λ _ link _. ok (costs.get_link_min_travel_disutility link);
}

pub record RoutingAStarActions : Type 0 where
  pub parent_links : List (Option ℕ)
  pub arrival_times : List SimTime

abbrev pub replicate : {A : Type 0} → ℕ → A → List A
replicate zero a = []
replicate (suc n) a = a ∷ replicate n a

unfoldable pub routing_new : (number_of_nodes : ℕ) → RoutingAStarActions
routing_new n = record { parent_links = replicate n none; arrival_times = replicate n u64_max }

-- Panics without a disutility.
unfoldable pub routing_result :
    {F : Type 0} (to_node : ℕ)
    → RoutingAStarActions
    → Option F
    → SimTime
    → Result (AStarCoreResult F)
routing_result to_node o current departure_time = do
  arrival ← unwrap (get_elem? o.arrival_times to_node)
  disutility ← unwrap current
  ok (single_disutil_with_parents disutility (saturating_sub arrival departure_time) o.parent_links)

unfoldable pub set_arrival_time : RoutingAStarActions → ℕ → SimTime → Result RoutingAStarActions
unfolding set_at
set_arrival_time o node time = do
  times ← set_at o.arrival_times node time
  ok (record o { arrival_times = times })

unfoldable pub set_parent_link :
    RoutingAStarActions → (child parent_link : ℕ) → Result RoutingAStarActions
unfolding set_at
set_parent_link o child parent_link = do
  links ← set_at o.parent_links child (some parent_link)
  ok (record o { parent_links = links })

unfoldable pub arrive_at_neighbour :
    {F : Type 0}
    → LinkCosts F
    → RoutingAStarActions
    → (current neighbour : ℕ) → Link F
    → Result RoutingAStarActions
unfolding set_arrival_time
arrive_at_neighbour costs o current neighbour link = do
  start ← unwrap (get_elem? o.arrival_times current)
  arrival ← unwrap (time_saturating_add start (costs.travel_time link start))
  set_arrival_time o neighbour arrival

unfoldable pub routing_actions :
    {F : Type 0} → LinkCosts F → (to_node : ℕ) → AStarActions F RoutingAStarActions
unfolding set_parent_link routing_result set_arrival_time arrive_at_neighbour
routing_actions costs to_node = record {
  reached_end = λ _ current. to_node == current;
  set_parent_link_opt = set_parent_link;
  build_result = λ o current departure_time _. routing_result to_node o current departure_time;
  get_to_node_opt = λ _. some to_node;
  set_arrival_time_opt = set_arrival_time;
  set_arrival_time_at_neighbour_opt = arrive_at_neighbour costs;
  get_disutility_of_link = λ o link start. do
    time ← unwrap (get_elem? o.arrival_times start)
    ok (costs.travel_disutility link time);
}
