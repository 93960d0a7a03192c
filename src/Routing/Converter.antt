-- ===== src/Routing/Converter.antt =====
-- rust_qsim/src/simulation/replanning/routing/network_converter.rs: the graph of a network, whole or for one mode.
-- `none` is a panic. The sorts of the crate itertools are arguments: of the nodes by their ids, and of ids of links.
pub mod Slices
pub mod Numbering
pub mod Laws
pub mod Faithful
use parallel_qsim_rust.Prelude.{
  ℕ, zero, suc, ◌+◌, Bool, true, Option, none, some, ◌>>=◌, List, [], ◌∷◌, ◌++◌, select, length,
  map,
}
use parallel_qsim_rust.Prelude.Maps.{Map, get, put}
use parallel_qsim_rust.Scenario.RoadNetwork.{Node, Link, Network, contains_mode}
use parallel_qsim_rust.Routing.Graph.{Result, ForwardBackwardRoutingGraph, graph_new, panic}

-- The graph of one direction while it grows: `before` counts the links so far.
pub record Rows : Type 0 where
  pub first_out : List ℕ
  pub head : List ℕ
  pub link_ids : List ℕ
  pub before : ℕ

abbrev pub no_rows : Rows
no_rows = record { first_out = []; head = []; link_ids = []; before = 0 }

-- `enumerate()` and `collect()` into a map, from number `i` on.
unfoldable pub number_all : ℕ → List ℕ → Map ℕ → Map ℕ
number_all i [] m = m
number_all i (id ∷ ids) m = number_all (suc i) ids (put id i m)

module _ {F : Type 0} where
  -- `mode.map_or(true, |m| l.contains_mode(m))`.
  unfoldable pub allows : Option ℕ → Link F → Bool
  allows none l = true
  allows (some mode) l = contains_mode l mode

  unfoldable pub look_up_all : Network F → List ℕ → Option (List (Link F))
  look_up_all n [] = some []
  look_up_all n (id ∷ ids) = do l ← get id n.links; ls ← look_up_all n ids; some (l ∷ ls)

  unfoldable pub get_links :
      (List ℕ → List ℕ) → Network F → Option ℕ → List ℕ → Option (List (Link F))
  unfolding look_up_all
  get_links sort n mode ids = do ls ← look_up_all n (sort ids); some (select (allows mode) ls)

  -- The indices of the nodes at one end of the links.
  unfoldable pub ends_of : (Link F → ℕ) → Map ℕ → List (Link F) → Option (List ℕ)
  ends_of end indices [] = some []
  ends_of end indices (l ∷ ls) = do
    i ← get (end l) indices
    is ← ends_of end indices ls
    some (i ∷ is)

  -- The row of a node in one direction.
  unfoldable pub push_row : (Link F → ℕ) → Map ℕ → List (Link F) → Rows → Option Rows
  unfolding ends_of
  push_row end indices links r = do
    heads ← ends_of end indices links
    some (record {
      first_out = r.first_out ++ r.before ∷ [];
      head = r.head ++ heads;
      link_ids = r.link_ids ++ map (λ l. l.id) links;
      before = r.before + length links;
    })

  module _ (sort : List ℕ → List ℕ) (n : Network F) (mode : Option ℕ) (indices : Map ℕ) where
    -- The loop over the nodes.
    unfoldable pub push_nodes : List (Node F) → Rows × Rows → Option (Rows × Rows)
    unfolding get_links push_row
    push_nodes [] r = some r
    push_nodes (v ∷ vs) (forward, backward) = do
      outgoing ← get_links sort n mode v.out_links
      ingoing ← get_links sort n mode v.in_links
      forward' ← push_row (λ l. l.to) indices outgoing forward
      backward' ← push_row (λ l. l.from) indices ingoing backward
      push_nodes vs (forward', backward')

  unfoldable pub get_all_nodes_sorted : (Map (Node F) → Map (Node F)) → Network F → List (Node F)
  get_all_nodes_sorted sort_nodes n = map (λ e. e.1) (sort_nodes n.nodes)

  -- The graph of the rows of both directions.
  unfoldable pub assemble : Network F → List (Node F) → Rows × Rows → ForwardBackwardRoutingGraph F
  assemble n nodes (forward, backward) =
      let ids = map (λ v. v.id) nodes in
      record {
        forward_graph = record {
          first_out = forward.first_out ++ length forward.head ∷ [];
          head = forward.head;
        };
        backward_graph = record {
          first_out = backward.first_out ++ length backward.head ∷ [];
          head = backward.head;
        };
        network = n;
        node_index_by_id = number_all 0 ids [];
        node_id_by_index = ids;
        forward_link_id_by_index = forward.link_ids;
        backward_link_id_by_index = backward.link_ids;
        forward_link_index_by_id = number_all 0 forward.link_ids [];
        backward_link_index_by_id = number_all 0 backward.link_ids [];
      }

  unfoldable pub convert_network_for_mode :
      (Map (Node F) → Map (Node F))
      → (List ℕ → List ℕ)
      → Network F
      → Option ℕ
      → Result (ForwardBackwardRoutingGraph F)
  unfolding get_all_nodes_sorted push_nodes assemble
  convert_network_for_mode sort_nodes sort n mode =
      let nodes = get_all_nodes_sorted sort_nodes n in
      let indices = number_all 0 (map (λ v. v.id) nodes) [] in
      elim (push_nodes sort n mode indices nodes (no_rows, no_rows)) [
        | none ↦ panic
        | some rows ↦ graph_new (assemble n nodes rows)
      ]
