-- ===== src/Scenario/Tests.antt =====
-- scenario/network.rs on a small network: two nodes, a link each way and a loop.
use parallel_qsim_rust.Prelude.{
  ℕ, ◌≡◌, refl, true, false, ◌==◌, if◌then◌else◌, some, List, [], ◌∷◌, arith,
}
use parallel_qsim_rust.Prelude.Maps.{get, put, erase, contains}
use parallel_qsim_rust.Scenario.RoadNetwork.{
  Node, Link, Network, add_link, remove_link, remove_node,
}
use parallel_qsim_rust.Scenario.RoadNetwork.Changes.{is_some}
use parallel_qsim_rust.Scenario.RoadNetwork.Wiring.{count, IsWired}
use parallel_qsim_rust.Scenario.RoadNetwork.Adding.{add_link-IsWired}
use parallel_qsim_rust.Scenario.RoadNetwork.Removal.{remove_link-IsWired}
use parallel_qsim_rust.Scenario.RoadNetwork.NodeRemoval.{
  IsHashSet, IsWithoutNode, remove_node-IsWithoutNode,
}

abbrev node : ℕ → List ℕ → List ℕ → Node ℕ
node id ins outs = record {
  id = id;
  coord = record { x = 0; y = 0; z = 0 };
  in_links = ins;
  out_links = outs;
  partition = 0;
  cmp_weight = 1;
}

abbrev link : ℕ → ℕ → ℕ → Link ℕ
link id from to = record {
  id = id;
  from = from;
  to = to;
  length = 1;
  capacity = 1;
  freespeed = 1;
  permlanes = 1;
  modes = [];
  partition = 0;
}

abbrev town : Network ℕ
town = record {
  nodes = (0, node 0 (6 ∷ []) (5 ∷ [])) ∷ (1, node 1 (5 ∷ 7 ∷ []) (6 ∷ 7 ∷ [])) ∷ [];
  links = (5, link 5 0 1) ∷ (6, link 6 1 0) ∷ (7, link 7 1 1) ∷ [];
  effective_cell_size = 7;
}

town-IsWired : IsWired town
unfolding get
town-IsWired = record {
  keyed = λ k l e. ground arith;
  from_stored = λ k l e. ground arith;
  to_stored = λ k l e. ground arith;
  outs = λ x v e k. ground arith;
  ins = λ x v e k. ground arith;
}

abbrev distinct : List ℕ → List ℕ
distinct [] = []
distinct (x ∷ xs) = let rest = distinct xs in if contains x xs then rest else x ∷ rest

contains-count : (k : ℕ) (xs : List ℕ) → contains k xs ≡ (if count k xs == 0 then false else true)
unfolding contains
contains-count k [] = ground arith
contains-count k (x ∷ xs) = ground (arith, contains-count k xs)

distinct-IsHashSet : IsHashSet distinct
distinct-IsHashSet k [] = ground arith
distinct-IsHashSet k (x ∷ xs) =
    ground (arith, distinct-IsHashSet k xs, contains-count x xs, contains-count k xs)

remove_node-IsWithoutNode_example :
    (n : Network ℕ) × (remove_node distinct town 0 ≡ some n) × IsWithoutNode 0 town n
unfolding get
remove_node-IsWithoutNode_example =
    remove_node-IsWithoutNode distinct distinct-IsHashSet town 0 (node 0 (6 ∷ []) (5 ∷ []))
      town-IsWired refl

add_link-IsWired_example :
    (n : Network ℕ) × (add_link town (link 8 1 0) ≡ some n)
    × IsWired n
    × (n.links ≡ put 8 (link 8 1 0) town.links)
    × ((y : ℕ) → is_some (get y n.nodes) ≡ is_some (get y town.nodes))
unfolding get
add_link-IsWired_example = add_link-IsWired town (link 8 1 0) town-IsWired refl refl refl

remove_link-IsWired_example :
    (n : Network ℕ) × (remove_link town 7 ≡ some n)
    × IsWired n
    × (n.links ≡ erase 7 town.links)
    × ((y : ℕ) → is_some (get y n.nodes) ≡ is_some (get y town.nodes))
unfolding get
remove_link-IsWired_example = remove_link-IsWired town (link 7 1 1) 7 town-IsWired refl
