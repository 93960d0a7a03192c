-- ===== src/Engines/Tests/NetworkRuns.antt =====
-- A run of rust_qsim/src/simulation/engines/network_engine.rs.
use parallel_qsim_rust.Prelude.{ℕ, ◌≡◌, refl, true, some, [], ◌∷◌, All, arith, false}
use parallel_qsim_rust.Prelude.Maps.{get}
use parallel_qsim_rust.Network.Link.Laws.{on_sim_link}
use parallel_qsim_rust.Network.SimNetwork.Vehicles.{on_links}
use parallel_qsim_rust.Messaging.Broker.{NetMessageBroker}
use parallel_qsim_rust.Network.Tests.{whole_numbers, cars, Car, seconds}
use parallel_qsim_rust.Network.Tests.PartitionRuns.{
  town, town-IsValid, town_moves, town_stored, tick_three,
}
use parallel_qsim_rust.Engines.Network.{Passengers, NetworkEngine, LinksMoved, move_links}
use parallel_qsim_rust.Engines.Network.Outgoing.{is_known}
use parallel_qsim_rust.Engines.Network.Moves.{AreMoved, move_links-AreMoved}

instance abbrev alone : Passengers Car
alone = record { passengers = λ c. [] }

abbrev town_engine : NetworkEngine ℕ Car Unit
town_engine = record { network = town; clock = seconds }

abbrev town_broker : NetMessageBroker ℕ Car
town_broker = record {
  rank = 0;
  out_messages = [];
  in_messages = [];
  link_mapping = (1, 0) ∷ (2, 0) ∷ [];
  neighbors = 1 ∷ [];
  global_sync = false;
}

town_known : All (λ x. is_known ℕ town_broker.link_mapping x ≡ true) (on_links town.links)
unfolding on_links on_sim_link get
town_known = (refl, (refl, (refl, tt)))

move_links-AreMoved_example :
    (r : LinksMoved ℕ Car Unit) × (move_links 3 town_engine town_broker ≡ some r)
    × AreMoved town_engine town_broker r
move_links-AreMoved_example =
    move_links-AreMoved 3 town_engine town_broker (omega arith) town-IsValid town_stored town_moves
      tick_three town_known
