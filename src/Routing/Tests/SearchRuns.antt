-- ===== src/Routing/Tests/SearchRuns.antt =====
-- The search for landmarks on three nodes: 0 → 1 costs 5, 0 → 2 costs 9 and 1 → 2 costs 2.
use parallel_qsim_rust.Prelude.{
  ℕ, zero, suc, ◌<◌, ◌≡◌, refl, false, some, List, [], ◌∷◌, All, arith,
}
use parallel_qsim_rust.Prelude.Maps.{get}
use parallel_qsim_rust.Population.{Coordinate}
use parallel_qsim_rust.Scenario.RoadNetwork.{Node, Link, Network}
use parallel_qsim_rust.Routing.Graph.{
  ok, ForwardBackwardRoutingGraph, num_nodes, outgoing_edges_as_idx, get_end_node_as_idx,
  get_link_from_idx,
}
use parallel_qsim_rust.Routing.Search.Costs.{IsCost}
use parallel_qsim_rust.Routing.Search.Core.{
  indexable, neighbour_edges, other_end, get_initial_queue, search_loop, a_star_core,
}
use parallel_qsim_rust.Routing.Search.Actions.{LinkCosts, landmark_actions}
use parallel_qsim_rust.Routing.Search.Walks.{IsEdge, IsClosed}
use parallel_qsim_rust.Routing.Search.Least.{AreLeast, disutilities_one_2_many-AreLeast}
use parallel_qsim_rust.Routing.Landmarks.{landmark_request, disutilities_one_2_many}
use parallel_qsim_rust.Routing.Tests.{capped, bounds, slots, slots_laws, capped_laws}

abbrev pub origin : Coordinate ℕ
origin = record { x = 0; y = 0; z = 0 }

abbrev pub node_of : ℕ → List ℕ → List ℕ → Node ℕ
node_of id ins outs = record {
  id = id;
  coord = origin;
  in_links = ins;
  out_links = outs;
  partition = 0;
  cmp_weight = 1;
}

-- A link whose length is its cost.
abbrev pub link_of : ℕ → ℕ → ℕ → ℕ → Link ℕ
link_of id from to cost = record {
  id = id;
  from = from;
  to = to;
  length = cost;
  capacity = 1;
  freespeed = 1;
  permlanes = 1;
  modes = [];
  partition = 0;
}

abbrev pub roads : Network ℕ
roads = record {
  nodes =
      (0, node_of 0 [] (10 ∷ 11 ∷ []))
      ∷ (1, node_of 1 (10 ∷ []) (12 ∷ []))
      ∷ (2, node_of 2 (11 ∷ 12 ∷ []) [])
      ∷ [];
  links = (10, link_of 10 0 1 5) ∷ (11, link_of 11 0 2 9) ∷ (12, link_of 12 1 2 2) ∷ [];
  effective_cell_size = 7;
}

abbrev pub sample : ForwardBackwardRoutingGraph ℕ
sample = record {
  forward_graph = record { first_out = 0 ∷ 2 ∷ 3 ∷ 3 ∷ []; head = 1 ∷ 2 ∷ 2 ∷ [] };
  backward_graph = record { first_out = 0 ∷ 0 ∷ 1 ∷ 3 ∷ []; head = 0 ∷ 0 ∷ 1 ∷ [] };
  network = roads;
  node_index_by_id = (0, 0) ∷ (1, 1) ∷ (2, 2) ∷ [];
  node_id_by_index = 0 ∷ 1 ∷ 2 ∷ [];
  forward_link_id_by_index = 10 ∷ 11 ∷ 12 ∷ [];
  backward_link_id_by_index = 10 ∷ 11 ∷ 12 ∷ [];
  forward_link_index_by_id = (10, 0) ∷ (11, 1) ∷ (12, 2) ∷ [];
  backward_link_index_by_id = (10, 0) ∷ (11, 1) ∷ (12, 2) ∷ [];
}

abbrev pub prices : LinkCosts ℕ
prices = record {
  travel_time = λ l t. l.length;
  travel_disutility = λ l t. l.length;
  get_link_min_travel_disutility = λ l. l.length;
}

program : Unit {0}
unfolding num_nodes outgoing_edges_as_idx get_end_node_as_idx get_link_from_idx get neighbour_edges
    other_end get_initial_queue search_loop a_star_core landmark_actions disutilities_one_2_many
program = tt

least_costs :
    disutilities_one_2_many capped bounds slots (indexable sample) prices 0 false
    ≡ some (ok (0 ∷ 5 ∷ 7 ∷ []))
unfolding program
least_costs = refl

module _ (i v : ℕ) (l : Link ℕ) where
  IsEdge-known :
      other_end (landmark_request (indexable sample) 0 false) i ≡ ok v
      → get_link_from_idx sample i ≡ ok l
      → IsEdge capped (indexable sample) prices 0 false i v l.length
  IsEdge-known p q = record { link = l; head_eq = p; link_eq = q; cost_eq = refl }

edges_known :
    (u : ℕ)
    → u < num_nodes sample
    → (es : List ℕ) × (neighbour_edges (landmark_request (indexable sample) 0 false) u ≡ ok es)
      × All
          (λ i.
            (v : ℕ) × (w : ℕ) × IsEdge capped (indexable sample) prices 0 false i v w
            × (v < num_nodes sample)
            × IsCost capped bounds w)
          es
unfolding program
edges_known zero h = (
  0 ∷ 1 ∷ [],
  refl,
  (
    (1, 5, IsEdge-known 0 1 (link_of 10 0 1 5) refl refl, omega arith, (refl, refl)),
    ((2, 9, IsEdge-known 1 2 (link_of 11 0 2 9) refl refl, omega arith, (refl, refl)), tt),
  ),
)
edges_known (suc zero) h = (
  2 ∷ [],
  refl,
  ((2, 2, IsEdge-known 2 2 (link_of 12 1 2 2) refl refl, omega arith, (refl, refl)), tt),
)
edges_known (suc (suc zero)) h = ([], refl, tt)
edges_known (suc (suc (suc u))) h = absurd (omega arith)

sample-IsClosed : IsClosed capped (indexable sample) prices 0 false bounds
unfolding program
sample-IsClosed = record { from_lt = omega arith; edges_of = edges_known }

disutilities_one_2_many-AreLeast_example :
    (ds : List ℕ) × (disutilities_one_2_many capped bounds slots (indexable sample) prices 0 false
      ≡ some (ok ds))
    × AreLeast capped bounds (indexable sample) prices 0 false ds
disutilities_one_2_many-AreLeast_example =
    disutilities_one_2_many-AreLeast slots_laws capped_laws (indexable sample) prices 0 false
      sample-IsClosed
