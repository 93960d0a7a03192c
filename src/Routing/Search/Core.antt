-- ===== src/Routing/Search/Core.antt =====
-- a_star_core.rs: the loop of the search, over any graph, any actions and any queue. A panic is `panic`; the loop
-- runs on fuel, and `none` is its end. A warning is left out.
use parallel_qsim_rust.Prelude.{
  ℕ, zero, suc, Bool, true, false, ◌==◌, ◌||◌, not, if◌then◌else◌, Option, none, some, List, [],
  ◌∷◌, ◌++◌, get_elem?,
}
use parallel_qsim_rust.Time.{SimTime, Duration}
use parallel_qsim_rust.Float.{F64}
use parallel_qsim_rust.Scenario.RoadNetwork.{Link}
use parallel_qsim_rust.Routing.Graph.{
  Result, ok, err, panic, unwrap, ◌>>=◌, ForwardBackwardRoutingGraph, num_nodes,
  outgoing_edges_as_idx, incoming_edges_as_idx, get_end_node_as_idx, get_start_node_as_idx,
  get_link_from_idx, get_node_id,
}
use parallel_qsim_rust.Routing.Search.Queue.{KeyedPriorityQueue}
use parallel_qsim_rust.Routing.Search.Costs.{Extremes, zero_cost}

-- What the search reads of an `IndexableGraph`.
pub record IndexableGraph (F : Type 0) : Type 0 where
  pub nodes_count : ℕ
  pub outgoing : ℕ → Result (List ℕ)
  pub incoming : ℕ → Result (List ℕ)
  pub end_node : ℕ → Result ℕ
  pub start_node : ℕ → Result ℕ
  pub link : ℕ → Result (Link F)
  pub node_id : ℕ → Result ℕ

abbrev pub indexable : {F : Type 0} → ForwardBackwardRoutingGraph F → IndexableGraph F
indexable g = record {
  nodes_count = num_nodes g;
  outgoing = outgoing_edges_as_idx g;
  incoming = incoming_edges_as_idx g;
  end_node = get_end_node_as_idx g;
  start_node = get_start_node_as_idx g;
  link = get_link_from_idx g;
  node_id = get_node_id g;
}

pub data AStarCoreResult (F : Type 0) : Type 0 where
  disutility_to_all_without_parents : List F → AStarCoreResult F
  single_disutil_with_parents : F → Duration → List (Option ℕ) → AStarCoreResult F

-- The trait, over the state `O` of an implementation. Person and vehicle are those of the request.
pub record AStarActions (F O : Type 0) : Type 0 where
  pub reached_end : O → ℕ → Bool
  pub set_parent_link_opt : O → (child parent_link : ℕ) → Result O
  pub build_result : O → Option F → SimTime → List F → Result (AStarCoreResult F)
  pub get_to_node_opt : O → Option ℕ
  pub set_arrival_time_opt : O → ℕ → SimTime → Result O
  pub set_arrival_time_at_neighbour_opt : O → (current neighbour : ℕ) → Link F → Result O
  pub get_disutility_of_link : O → Link F → (start : ℕ) → Result F

-- An estimate is over ids of nodes.
pub data HeuristicMode (F : Type 0) : Type 0 where
  with_heuristic : (ℕ → ℕ → Result F) → HeuristicMode F
  without_heuristic : HeuristicMode F

pub record AStarRequest (F O : Type 0) : Type 0 where
  pub heuristic_mode : HeuristicMode F
  pub from : ℕ
  pub graph : IndexableGraph F
  pub options : O
  pub departure_time : SimTime
  pub backward : Bool

abbrev pub set : {A : Type 0} → List A → ℕ → A → List A
set [] i v = []
set (x ∷ xs) zero v = v ∷ xs
set (x ∷ xs) (suc i) v = x ∷ set xs i v

pub record State (F Q O : Type 0) : Type 0 where
  pub queue : Q
  pub disutilities : List F
  pub options : O

module _ {F O : Type 0} (r : AStarRequest F O) where
  unfoldable pub neighbour_edges : ℕ → Result (List ℕ)
  neighbour_edges current =
      if r.backward then r.graph.incoming current else r.graph.outgoing current

  unfoldable pub other_end : ℕ → Result ℕ
  other_end i = if r.backward then r.graph.start_node i else r.graph.end_node i

-- The least cost in the queue is infinite, or is no number.
unfoldable pub is_unreachable : {F : Type 0} → F64 F → Extremes F → F → Bool
is_unreachable f e d = f.eq d e.infinity || e.is_nan d

module _ {F Q : Type 0} (f : F64 F) (e : Extremes F) (c : KeyedPriorityQueue F Q) where
  -- The nodes `node..node + count` enter the queue, the from-node at cost 0 and all others at infinity.
  unfoldable pub fill_queue : (from node count : ℕ) → Q → List F → Q × List F
  fill_queue from node zero q ds = (q, ds)
  fill_queue from node (suc count) q ds =
      let priority = if node == from then zero_cost f else e.infinity in
      fill_queue from (suc node) count (c.push q node priority) (ds ++ priority ∷ [])

  unfoldable pub get_initial_queue : (node_count from : ℕ) → Q × List F
  unfolding fill_queue
  get_initial_queue node_count from = fill_queue from 0 node_count c.new []

  module _ {O : Type 0} (act : AStarActions F O) (r : AStarRequest F O) where
    unfoldable pub heuristic_estimate : O → ℕ → Result F
    heuristic_estimate o neighbour = elim r.heuristic_mode [
      | with_heuristic estimate ↦ do
        to_node ← unwrap (act.get_to_node_opt o)
        to_node_id ← r.graph.node_id to_node
        neighbour_id ← r.graph.node_id neighbour
        estimate neighbour_id to_node_id
      | without_heuristic ↦ ok (zero_cost f)
    ]

    -- A cheaper way to a neighbour that is in the queue.
    unfoldable pub improve :
        (current neighbour i : ℕ) → Link F → F → State F Q O → Result (State F Q O)
    unfolding heuristic_estimate
    improve current neighbour i link cost s = do
      arrived ← act.set_arrival_time_at_neighbour_opt s.options current neighbour link
      estimate ← heuristic_estimate arrived neighbour
      options ← act.set_parent_link_opt arrived neighbour i
      ok (record {
        queue = c.set_priority s.queue neighbour (f.add cost estimate);
        disutilities = set s.disutilities neighbour cost;
        options = options;
      })

    -- One edge of the current node.
    unfoldable pub relax : ℕ → F → ℕ → State F Q O → Result (State F Q O)
    unfolding improve other_end
    relax current current_disutility i s = do
      neighbour ← other_end r i
      if not (c.occupied s.queue neighbour) then ok s else do
        link ← r.graph.link i
        w ← act.get_disutility_of_link s.options link current
        known ← unwrap (get_elem? s.disutilities neighbour)
        if f.lt (f.add current_disutility w) known
            then improve current neighbour i link (f.add current_disutility w) s
            else ok s

    unfoldable pub relax_all : ℕ → F → List ℕ → State F Q O → Result (State F Q O)
    unfolding relax
    relax_all current current_disutility [] s = ok s
    relax_all current current_disutility (i ∷ is) s = do
      s' ← relax current current_disutility i s
      relax_all current current_disutility is s'

    abbrev pub finish : Option F → State F Q O → Result (AStarCoreResult F)
    finish current s = act.build_result s.options current r.departure_time s.disutilities

    unfoldable pub search_loop : ℕ → State F Q O → Option (Result (AStarCoreResult F))
    unfolding relax_all neighbour_edges is_unreachable
    search_loop zero s = none
    search_loop (suc fuel) s = elim (c.pop s.queue) [
      | none ↦ some (finish none s)
      | some (current, _, queue) ↦ elim (get_elem? s.disutilities current) [
        | none ↦ some panic
        | some d ↦ elim (is_unreachable f e d || act.reached_end s.options current) [
          | true ↦ some (finish (some d) s)
          | false ↦
              elim (neighbour_edges r current >>= λ edges.
              relax_all current d edges (record s { queue = queue })) [
                | ok s' ↦ search_loop fuel s'
                | err x ↦ some (err x)
                | panic ↦ some panic
              ]
        ]
      ]
    ]

    -- Every round takes a node out of the queue, and none enters it again.
    unfoldable pub a_star_core : Option (Result (AStarCoreResult F))
    unfolding get_initial_queue search_loop
    a_star_core = elim (act.set_arrival_time_opt r.options r.from r.departure_time) [
      | ok options ↦
          let (queue, disutilities) = get_initial_queue r.graph.nodes_count r.from in
          search_loop (suc r.graph.nodes_count)
            (record { queue = queue; disutilities = disutilities; options = options })
      | err x ↦ some (err x)
      | panic ↦ some panic
    ]
