-- ===== src/Routing/Search/Walks.antt =====
-- What the search of landmarks is about: the walks of a graph and their costs, summed in the order of the walk.
use parallel_qsim_rust.Prelude.{ℕ, ◌<◌, ◌≡◌, ◌⊎◌, Bool, List, [], ◌∷◌, All}
use parallel_qsim_rust.Float.{F64}
use parallel_qsim_rust.Scenario.RoadNetwork.{Link}
use parallel_qsim_rust.Routing.Graph.{ok}
use parallel_qsim_rust.Routing.Search.Costs.{Extremes, zero_cost, IsCost}
use parallel_qsim_rust.Routing.Search.Core.{IndexableGraph, neighbour_edges, other_end}
use parallel_qsim_rust.Routing.Search.Actions.{LinkCosts}
use parallel_qsim_rust.Routing.Landmarks.{landmark_request}

abbrev pub Among : ℕ → List ℕ → Type 0
Among i [] = ⊥
Among i (x ∷ xs) = (i ≡ x) ⊎ Among i xs

module _ {F : Type 0} (f : F64 F) (graph : IndexableGraph F) (costs : LinkCosts F) (from : ℕ)
    (backward : Bool) where
  -- Edge `i` leads to `v` at cost `w`.
  pub record IsEdge (i v : ℕ) (w : F) : Type 0 where
    pub link : Link F
    pub head_eq : other_end (landmark_request graph from backward) i ≡ ok v
    pub link_eq : graph.link i ≡ ok link
    pub cost_eq : costs.get_link_min_travel_disutility link ≡ w

  pub record HasEdge (u i v : ℕ) (w : F) : Type 0 where
    pub edges : List ℕ
    pub edges_eq : neighbour_edges (landmark_request graph from backward) u ≡ ok edges
    pub among : Among i edges
    pub is_edge : IsEdge i v w

  -- Walks from the node `from` that end at a node, with their cost.
  pub data Walk : ℕ → F → Type 0 where
    here : Walk from (zero_cost f)
    step : {u i v : ℕ} {d w : F} → Walk u d → HasEdge u i v w → Walk v (f.add d w)

  -- The edges of every node can be read, lead to nodes and cost no less than nothing.
  pub record IsClosed (e : Extremes F) : Type 0 where
    pub from_lt : from < graph.nodes_count
    pub edges_of :
        (u : ℕ)
        → u < graph.nodes_count
        → (es : List ℕ) × (neighbour_edges (landmark_request graph from backward) u ≡ ok es)
          × All (λ i. (v : ℕ) × (w : F) × IsEdge i v w × (v < graph.nodes_count) × IsCost f e w) es
