-- ===== src/Routing/Landmarks.antt =====
-- alt_landmark_data.rs: the costs between landmarks and all nodes. The choice of landmarks is by a random number
-- generator, so it is an argument.
use parallel_qsim_rust.Prelude.{ℕ, Bool, true, false, Option, none, some, List, [], ◌∷◌}
use parallel_qsim_rust.Prelude.Maps.{Map}
use parallel_qsim_rust.Float.{F64}
use parallel_qsim_rust.Routing.Graph.{Result, ok, err, panic, ◌>>=◌}
use parallel_qsim_rust.Routing.Search.Queue.{KeyedPriorityQueue}
use parallel_qsim_rust.Routing.Search.Costs.{Extremes}
use parallel_qsim_rust.Routing.Search.Core.{
  IndexableGraph, AStarRequest, AStarCoreResult, disutility_to_all_without_parents,
  single_disutil_with_parents, without_heuristic, a_star_core,
}
use parallel_qsim_rust.Routing.Search.Actions.{LinkCosts, landmark_actions}

pub record AltLandmarkData (F : Type 0) : Type 0 where
  pub landmarks : List ℕ
  pub travel_disutilities_to_all : List (List (F × F))
  pub node_id_to_idx : Map ℕ

abbrev pub zip : {A B : Type 0} → List A → List B → List (A × B)
zip [] ys = []
zip (x ∷ xs) [] = []
zip (x ∷ xs) (y ∷ ys) = (x, y) ∷ zip xs ys

-- The request of a landmark: no heuristic, and the departure at time 0.
abbrev pub landmark_request : {F : Type 0} → IndexableGraph F → ℕ → Bool → AStarRequest F (Unit {0})
landmark_request graph from backward = record {
  heuristic_mode = without_heuristic;
  from = from;
  graph = graph;
  options = tt;
  departure_time = 0;
  backward = backward;
}

abbrev pub disutilities_of : {F : Type 0} → Result (AStarCoreResult F) → Result (List F)
disutilities_of (ok (disutility_to_all_without_parents ds)) = ok ds
disutilities_of (ok (single_disutil_with_parents d t ps)) = panic
disutilities_of (err x) = err x
disutilities_of panic = panic

module _ {F Q : Type 0} (f : F64 F) (e : Extremes F) (c : KeyedPriorityQueue F Q)
    (graph : IndexableGraph F) (costs : LinkCosts F) where
  -- `none` is the end of the fuel.
  unfoldable pub disutilities_one_2_many : ℕ → Bool → Option (Result (List F))
  disutilities_one_2_many from backward =
      elim (a_star_core f e c (landmark_actions costs) (landmark_request graph from backward)) [
        | none ↦ none
        | some result ↦ some (disutilities_of result)
      ]

  abbrev pub both_ways :
      Option (Result (List F)) → Option (Result (List F)) → Option (Result (List (F × F)))
  both_ways none backward = none
  both_ways (some forward) none = none
  both_ways (some forward) (some backward) =
      some do there ← forward; back ← backward; ok (zip there back)

  unfoldable pub calc_all_disutilities : List ℕ → Option (Result (List (List (F × F))))
  unfolding disutilities_one_2_many
  calc_all_disutilities [] = some (ok [])
  calc_all_disutilities (landmark ∷ landmarks) =
      let row =
        both_ways (disutilities_one_2_many landmark false)
          (disutilities_one_2_many landmark true) in
      let rest = calc_all_disutilities landmarks in
      elim row [
        | none ↦ none
        | some (ok r) ↦ elim rest [
          | none ↦ none
          | some (ok rs) ↦ some (ok (r ∷ rs))
          | some (err x) ↦ some (err x)
          | some panic ↦ some panic
        ]
        | some (err x) ↦ some (err x)
        | some panic ↦ some panic
      ]
