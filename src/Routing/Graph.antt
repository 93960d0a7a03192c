-- ===== src/Routing/Graph.antt =====
-- rust_qsim/src/simulation/replanning/routing/graph.rs: two graphs in compressed rows, one for each direction of the
-- links, and the reads of nodes and links by id and by index.
use parallel_qsim_rust.Prelude.{
  ℕ, zero, suc, ◌-◌, Bool, ◌==◌, ◌&&◌, leb, if◌then◌else◌, Option, none, some, List, [], ◌∷◌,
  length, take, get_elem?,
}
use parallel_qsim_rust.Prelude.Maps.{Map, get}
use parallel_qsim_rust.Scenario.RoadNetwork.{Node, Link, Network}

pub data GraphError : Type 0 where
  link_id_not_found : ℕ → GraphError
  link_index_not_found : ℕ → GraphError
  link_range_not_found : (start end : ℕ) → GraphError
  node_id_not_found : ℕ → GraphError
  node_index_not_found : ℕ → GraphError
  node_range_not_found : (start end : ℕ) → GraphError

-- A `Result` with `GraphError`, or a panic.
pub data Result (A : Type 0) : Type 0 where
  ok : A → Result A
  err : GraphError → Result A
  panic : Result A

infixl 5 ◌>>=◌
abbrev pub ◌>>=◌ : {A B : Type 0} → Result A → (A → Result B) → Result B
ok a >>= f = f a
err e >>= f = err e
panic >>= f = panic

-- `ok_or_else(..)`.
abbrev pub ok_or : {A : Type 0} → GraphError → Option A → Result A
ok_or e none = err e
ok_or e (some a) = ok a

-- `unwrap()`, or an index.
abbrev pub unwrap : {A : Type 0} → Option A → Result A
unwrap none = panic
unwrap (some a) = ok a

abbrev pub drop : {A : Type 0} → ℕ → List A → List A
drop zero xs = xs
drop (suc n) [] = []
drop (suc n) (x ∷ xs) = drop n xs

-- `xs.get(start..end)`.
unfoldable pub get_range : {A : Type 0} → ℕ → ℕ → List A → Option (List A)
get_range start end xs =
    if leb start end && leb end (length xs) then some (take (end - start) (drop start xs)) else none

-- The numbers `start..end`.
abbrev pub count_up : ℕ → ℕ → List ℕ
count_up start zero = []
count_up start (suc n) = start ∷ count_up (suc start) n

abbrev pub range : ℕ → ℕ → List ℕ
range start end = count_up start (end - start)

-- The row of a node: an index out of range panics, a range out of range is an error.
unfoldable pub row_bounds : List ℕ → ℕ → Result (ℕ × ℕ)
row_bounds first_out idx = do
  start ← unwrap (get_elem? first_out idx)
  end ← unwrap (get_elem? first_out (suc idx))
  ok (start, end)

pub record CsrGraph : Type 0 where
  pub first_out : List ℕ
  pub head : List ℕ

pub record ForwardBackwardRoutingGraph (F : Type 0) : Type 0 where
  pub forward_graph : CsrGraph
  pub backward_graph : CsrGraph
  pub network : Network F
  pub node_index_by_id : Map ℕ
  pub node_id_by_index : List ℕ
  pub forward_link_id_by_index : List ℕ
  pub backward_link_id_by_index : List ℕ
  pub forward_link_index_by_id : Map ℕ
  pub backward_link_index_by_id : Map ℕ

module _ {F : Type 0} where
  unfoldable pub validate : ForwardBackwardRoutingGraph F → Bool
  validate g =
      length g.forward_graph.head == length g.backward_graph.head
      && length g.forward_graph.first_out == length g.backward_graph.first_out

  -- The graph, unless its two directions differ in size.
  unfoldable pub graph_new : ForwardBackwardRoutingGraph F → Result (ForwardBackwardRoutingGraph F)
  unfolding validate
  graph_new g = if validate g then ok g else panic

-- The methods of `Graph` and of `IndexableGraph`.
module _ {F : Type 0} (g : ForwardBackwardRoutingGraph F) where
  unfoldable pub get_node_id : ℕ → Result ℕ
  get_node_id idx = ok_or (node_index_not_found idx) (get_elem? g.node_id_by_index idx)

  unfoldable pub get_link_id : ℕ → Result ℕ
  get_link_id idx = ok_or (link_index_not_found idx) (get_elem? g.forward_link_id_by_index idx)

  unfoldable pub get_backward_link_index : ℕ → Result ℕ
  unfolding get_link_id
  get_backward_link_index forward_idx = do
    id ← get_link_id forward_idx
    ok_or (link_id_not_found id) (get id g.backward_link_index_by_id)

  unfoldable pub node : ℕ → Result (Node F)
  node id = ok_or (node_id_not_found id) (get id g.network.nodes)

  unfoldable pub edge : ℕ → Result (Link F)
  edge id = ok_or (link_id_not_found id) (get id g.network.links)

  unfoldable pub outgoing_edges : ℕ → Result (List ℕ)
  unfolding row_bounds
  outgoing_edges id = do
    idx ← ok_or (node_id_not_found id) (get id g.node_index_by_id)
    (start, end) ← row_bounds g.forward_graph.first_out idx
    ok_or (link_range_not_found start end) (get_range start end g.forward_link_id_by_index)

  unfoldable pub incoming_edges : ℕ → Result (List ℕ)
  unfolding row_bounds
  incoming_edges id = do
    idx ← ok_or (node_id_not_found id) (get id g.node_index_by_id)
    (start, end) ← row_bounds g.backward_graph.first_out idx
    ok_or (link_range_not_found start end) (get_range start end g.backward_link_id_by_index)

  unfoldable pub num_nodes : ℕ
  num_nodes = length g.forward_graph.first_out - 1

  unfoldable pub get_link_idx_from_id : ℕ → Result ℕ
  get_link_idx_from_id id = ok_or (link_id_not_found id) (get id g.forward_link_index_by_id)

  unfoldable pub get_end_node : ℕ → Result ℕ
  unfolding get_link_idx_from_id
  get_end_node id = do
    link_idx ← get_link_idx_from_id id
    node_idx ← unwrap (get_elem? g.forward_graph.head link_idx)
    unwrap (get_elem? g.node_id_by_index node_idx)

  unfoldable pub get_start_node_as_idx : ℕ → Result ℕ
  unfolding get_backward_link_index
  get_start_node_as_idx forward_idx = do
    idx ← get_backward_link_index forward_idx
    ok_or (link_index_not_found idx) (get_elem? g.backward_graph.head idx)

  unfoldable pub get_start_node : ℕ → Result ℕ
  unfolding get_link_idx_from_id get_start_node_as_idx get_node_id
  get_start_node id = do
    link_idx ← get_link_idx_from_id id
    start_node_idx ← get_start_node_as_idx link_idx
    get_node_id start_node_idx

  unfoldable pub get_node_idx_from_id : ℕ → Result ℕ
  get_node_idx_from_id id = unwrap (get id g.node_index_by_id)

  pub get_node_from_idx : ℕ → Result (Node F)
  unfolding get_node_id node
  get_node_from_idx idx = do id ← get_node_id idx; node id

  unfoldable pub get_link_from_idx : ℕ → Result (Link F)
  unfolding get_link_id edge
  get_link_from_idx idx = do id ← get_link_id idx; edge id

  unfoldable pub outgoing_edges_as_idx : ℕ → Result (List ℕ)
  unfolding row_bounds
  outgoing_edges_as_idx idx = do
    (start, end) ← row_bounds g.forward_graph.first_out idx
    ok (range start end)

  -- The forward indices of the backward indices in a row.
  unfoldable pub forward_indices : List ℕ → Result (List ℕ)
  forward_indices [] = ok []
  forward_indices (i ∷ is) = do
    id ← unwrap (get_elem? g.backward_link_id_by_index i)
    idx ← unwrap (get id g.forward_link_index_by_id)
    rest ← forward_indices is
    ok (idx ∷ rest)

  unfoldable pub incoming_edges_as_idx : ℕ → Result (List ℕ)
  unfolding row_bounds forward_indices
  incoming_edges_as_idx idx = do
    (start, end) ← row_bounds g.backward_graph.first_out idx
    forward_indices (range start end)

  unfoldable pub get_end_node_as_idx : ℕ → Result ℕ
  get_end_node_as_idx idx = ok_or (link_index_not_found idx) (get_elem? g.forward_graph.head idx)
