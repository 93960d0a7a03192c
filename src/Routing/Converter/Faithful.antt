-- ===== src/Routing/Converter/Faithful.antt =====
-- The conversion as a whole.
use parallel_qsim_rust.Prelude.{ℕ, ◌≡◌, Bool, ◌==◌, Option, some, List, [], length, map, get_elem?}
use parallel_qsim_rust.Prelude.Maps.{Map, get}
use parallel_qsim_rust.Scenario.RoadNetwork.{Node, Network}
use parallel_qsim_rust.Routing.Graph.{
  Result, CsrGraph, ok, ForwardBackwardRoutingGraph, outgoing_edges, incoming_edges, row_bounds,
  get_range,
}
use parallel_qsim_rust.Routing.Converter.{number_all, get_all_nodes_sorted}
use parallel_qsim_rust.Routing.Converter.Laws.{end_at, wanted_ids}

-- The bounds of a row are those of its ids and of its heads, which are read back as they were pushed.
record IsRead (first_out head link_ids : List ℕ) (j : ℕ) (row : List ℕ) (Leads : List ℕ → Type 0)
    : Type 0 where
  start : ℕ
  end : ℕ
  bounds : row_bounds first_out j ≡ ok (start, end)
  ids : get_range start end link_ids ≡ some row
  first_head : ℕ
  last_head : ℕ
  head_bounds : row_bounds first_out j ≡ ok (first_head, last_head)
  row_heads : List ℕ
  heads : get_range first_head last_head head ≡ some row_heads
  leads : Leads row_heads

module _ {F : Type 0} where
  -- Both directions have the same number of links.
  abbrev pub edges_agree : ForwardBackwardRoutingGraph F → Bool
  edges_agree g = length g.forward_graph.head == length g.backward_graph.head

  module _ (sort_nodes : Map (Node F) → Map (Node F)) (sort : List ℕ → List ℕ) (n : Network F)
      (mode : Option ℕ) where
    abbrev pub sorted : List (Node F)
    sorted = get_all_nodes_sorted sort_nodes n

    abbrev pub places : Map ℕ
    places = number_all 0 (map (λ v. v.id) sorted) []

    abbrev pub node_ids : List ℕ
    node_ids = map (λ v. v.id) sorted

    -- The row `ids` of the node `v`, the `j`-th, in one direction of a graph: its edges are those links, and the
    -- heads that stand between the bounds of the row are the places of the nodes where they lead.
    pub record IsRow (g : CsrGraph) (edges : Result (List ℕ)) (leads : ℕ → Option ℕ) (j : ℕ)
        (ids : List ℕ) : Type 0 where
      pub edges_are : edges ≡ ok ids
      pub start : ℕ
      pub end : ℕ
      pub bounds : row_bounds g.first_out j ≡ ok (start, end)
      pub row_heads : List ℕ
      pub heads : get_range start end g.head ≡ some row_heads
      pub lead : map (get_elem? node_ids) row_heads ≡ map leads ids

    -- Of every node, the links out, which lead to where they end, and the links in, which lead back to where they start:
    -- those that are stored and allow the mode, in the order of the sort.
    pub record IsFaithful (g : ForwardBackwardRoutingGraph F) : Type 0 where
      pub out_links :
          (j : ℕ) (v : Node F)
          → get_elem? sorted j ≡ some v
          → IsRow g.forward_graph
              (outgoing_edges g v.id)
              (λ k. end_at (λ l. l.to) (get k n.links))
              j
              (wanted_ids n mode (sort v.out_links))
      pub in_links :
          (j : ℕ) (v : Node F)
          → get_elem? sorted j ≡ some v
          → IsRow g.backward_graph
              (incoming_edges g v.id)
              (λ k. end_at (λ l. l.from) (get k n.links))
              j
              (wanted_ids n mode (sort v.in_links))
