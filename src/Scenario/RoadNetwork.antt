-- ===== src/Scenario/RoadNetwork.antt =====
-- rust_qsim/src/simulation/scenario/network.rs: the network as it is loaded, nodes and links that name each other.
-- `none` is a panic. Of a link, `attributes` is left out: `Link::new` leaves it empty and nothing here reads it.
pub mod Changes
pub mod Wiring
pub mod Adding
pub mod Removal
pub mod NodeRemoval
use parallel_qsim_rust.Prelude.{
  ℕ, ◌+◌, Bool, true, not, ◌==◌, if◌then◌else◌, Option, none, some, ◌>>=◌, List, [], ◌∷◌, ◌++◌,
  select, length,
}
use parallel_qsim_rust.Prelude.Maps.{Map, get, put, contains, erase}
use parallel_qsim_rust.Population.{Coordinate}

pub record Node (F : Type 0) : Type 0 where
  pub id : ℕ
  pub coord : Coordinate F
  pub in_links : List ℕ
  pub out_links : List ℕ
  pub partition : ℕ
  pub cmp_weight : ℕ

pub record Link (F : Type 0) : Type 0 where
  pub id : ℕ
  pub from : ℕ
  pub to : ℕ
  pub length : F
  pub capacity : F
  pub freespeed : F
  pub permlanes : F
  pub modes : List ℕ
  pub partition : ℕ

pub record Network (F : Type 0) : Type 0 where
  pub nodes : Map (Node F)
  pub links : Map (Link F)
  pub effective_cell_size : F

-- `retain(|link_id| link_id != &id)`.
abbrev pub retain_other : ℕ → List ℕ → List ℕ
retain_other id = select (λ other. not (other == id))

-- The list without the link, and the assertion that exactly one entry went.
unfoldable pub drop_one : ℕ → List ℕ → Option (List ℕ)
drop_one id xs =
    let kept = retain_other id xs in if length xs == length kept + 1 then some kept else none

module _ {F : Type 0} where
  pub node_new : ℕ → Coordinate F → (part cmp_weight : ℕ) → Node F
  node_new id coord part cmp_weight = record {
    id = id;
    coord = coord;
    in_links = [];
    out_links = [];
    partition = part;
    cmp_weight = cmp_weight;
  }

  unfoldable pub contains_mode : Link F → ℕ → Bool
  contains_mode l mode = elim l.modes [ [] ↦ true | m ∷ ms ↦ contains mode (m ∷ ms) ]

  unfoldable pub network_new : F → Network F
  network_new cell_size = record { nodes = []; links = []; effective_cell_size = cell_size }

  unfoldable pub get_node : Network F → ℕ → Option (Node F)
  get_node n id = get id n.nodes

  unfoldable pub get_link : Network F → ℕ → Option (Link F)
  get_link n id = get id n.links

  -- The node is inserted before the assertion that its id was not taken.
  unfoldable pub add_node : Network F → Node F → Option (Network F)
  add_node n node = elim (get node.id n.nodes) [
    | none ↦ some (record n { nodes = put node.id node n.nodes })
    | some _ ↦ none
  ]

  abbrev pub push_out : ℕ → Node F → Node F
  push_out id v = record v { out_links = v.out_links ++ id ∷ [] }

  abbrev pub push_in : ℕ → Node F → Node F
  push_in id v = record v { in_links = v.in_links ++ id ∷ [] }

  -- `nodes.get_mut(id).unwrap()`, and a change of what it finds.
  unfoldable pub change : ℕ → (Node F → Node F) → Map (Node F) → Option (Map (Node F))
  change id f nodes = do v ← get id nodes; some (put id (f v) nodes)

  unfoldable pub add_link : Network F → Link F → Option (Network F)
  add_link n link = do
    wired_out ← change link.from (push_out link.id) n.nodes
    wired_in ← change link.to (push_in link.id) wired_out
    elim (get link.id n.links) [
      | none ↦ some (record n { nodes = wired_in; links = put link.id link n.links })
      | some _ ↦ none
    ]

  unfoldable pub remove_link : Network F → ℕ → Option (Network F)
  remove_link n id = do
    link ← get id n.links
    from_node ← get link.from n.nodes
    out_links ← drop_one id from_node.out_links
    let unwired_out = put link.from (record from_node { out_links = out_links }) n.nodes
    to_node ← get link.to unwired_out
    in_links ← drop_one id to_node.in_links
    some (record n {
      nodes = put link.to (record to_node { in_links = in_links }) unwired_out;
      links = erase id n.links;
    })

  unfoldable pub remove_links : Network F → List ℕ → Option (Network F)
  remove_links n [] = some n
  remove_links n (id ∷ ids) = do n' ← remove_link n id; remove_links n' ids

  -- `collect` puts the links into a `HashSet`, so each comes once, in the order that `collect_set` gives.
  unfoldable pub remove_node : (List ℕ → List ℕ) → Network F → ℕ → Option (Network F)
  remove_node collect_set n id = do
    v ← get id n.nodes
    n' ← remove_links n (collect_set (v.in_links ++ v.out_links))
    _ ← get id n'.nodes
    some (record n' { nodes = erase id n'.nodes })
