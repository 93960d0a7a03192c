-- ===== src/Routing/Tests/ConverterRuns.antt =====
-- The network of SearchRuns, whose nodes and links stand in the order of their ids, becomes the graph written there.
use parallel_qsim_rust.Prelude.{ℕ, ◌≡◌, refl, none, List}
use parallel_qsim_rust.Prelude.Maps.{Map, get, put}
use parallel_qsim_rust.Scenario.RoadNetwork.{Node}
use parallel_qsim_rust.Routing.Graph.{ok, graph_new, get_start_node, get_end_node}
use parallel_qsim_rust.Routing.Converter.{allows, number_all, convert_network_for_mode}
use parallel_qsim_rust.Routing.Tests.SearchRuns.{roads, sample}

abbrev nodes_as_stored : Map (Node ℕ) → Map (Node ℕ)
nodes_as_stored m = m

abbrev links_as_stored : List ℕ → List ℕ
links_as_stored xs = xs

converted : convert_network_for_mode nodes_as_stored links_as_stored roads none ≡ ok sample
unfolding convert_network_for_mode get put graph_new allows number_all
converted = refl

ends : (get_end_node sample 12 ≡ ok 2) × (get_start_node sample 12 ≡ ok 1)
unfolding get_end_node get_start_node get
ends = (refl, refl)
