-- ===== src/Network/Tests/PartitionRuns.antt =====
-- A run of a partition of rust_qsim/src/simulation/network/sim_network.rs.
use parallel_qsim_rust.Prelude.{
  ℕ, ◌≡◌, refl, true, false, Bool, ◌⊎◌, none, some, List, [], ◌∷◌, ◌++◌, SameItems, arith,
}
use mathlib.Core.Option
use parallel_qsim_rust.Network.Link
use parallel_qsim_rust.Prelude.Maps.{get, put, contains}
use parallel_qsim_rust.Time.{tick_to_time}
use parallel_qsim_rust.Float.{Event, sum_from}
use parallel_qsim_rust.Network.Capacity.{update_capacity}
use parallel_qsim_rust.Network.Link.{
  do_sim_step, add_queue_to_buffer, add_waiting_to_buffer, queue_loop, waiting_loop,
  has_flow_capacity_left,
}
use parallel_qsim_rust.Network.Link.Split
use parallel_qsim_rust.Network.Link.Split.{SimLink, SplitOutLink, local, inward, out}
use parallel_qsim_rust.Network.Link.Laws.{on_sim_link, refuses}
use parallel_qsim_rust.Network.SimNetwork.{
  SimNetworkPartition, Gathered, move_links, move_all, move_link, move_local_link, report,
  send_veh_en_route, start_position,
}
use parallel_qsim_rust.Network.SimNetwork.Vehicles.{on_links}
use parallel_qsim_rust.Network.SimNetwork.Invariant.{IsValid}
use parallel_qsim_rust.Network.SimNetwork.Total.{
  Releases, AllCanMove, AllCanMove-entries, AreStored, move_links-IsValid,
}
use parallel_qsim_rust.Network.SimNetwork.Entering.{IsEntered, send_veh_en_route-IsEntered}
use parallel_qsim_rust.Network.Capacity.{StorageCap}
use parallel_qsim_rust.Network.Tests.{
  whole_numbers, cars, Car, busy, quiet, arriving, starting, seconds,
}

abbrev pub from_abroad : SimLink ℕ Car
from_abroad = inward (record { from_part = 1; local_link = quiet })

abbrev pub town : SimNetworkPartition ℕ Car Unit
town = record {
  nodes = [];
  links = (1, local busy) ∷ (2, from_abroad) ∷ [];
  rng = [];
  active_nodes = [];
  active_links = 1 ∷ 2 ∷ [];
  veh_counter = 3;
  partition = 0;
  clock = seconds;
}

pub town-IsValid : IsValid town
unfolding on_links on_sim_link get Split.id contains
town-IsValid = record {
  counted = refl;
  keyed = λ k l e. ground arith;
  active = λ k off l e. ground arith;
}

ends_leg :
    Option.map
      (λ (r : SimNetworkPartition ℕ Car Unit × Gathered ℕ Car). r.1.vehicles_end_leg)
      (move_links 3 town)
    ≡ some (arriving ∷ [])
unfolding move_links move_all move_link move_local_link report get put do_sim_step
    add_queue_to_buffer add_waiting_to_buffer queue_loop waiting_loop has_flow_capacity_left
    sum_from update_capacity tick_to_time Split.occupied_storage Link.to_nodes_active
ends_leg = refl

releases : (c : StorageCap ℕ) → Releases Car c
releases c xs ys = ground arith

pub tick_three : tick_to_time seconds 3 ≡ some 3_000_000_000
unfolding tick_to_time
tick_three = refl

pub town_moves : AllCanMove 3 town.links
town_moves =
    AllCanMove-entries 3 town.links
      ((3_000_000_000, tick_three), ((3_000_000_000, tick_three, releases quiet.storage_cap), tt))

pub town_stored : AreStored town.active_links town.links
unfolding get
town_stored = ((local busy, refl), ((from_abroad, refl), tt))

move_links-IsValid_example :
    (n' : SimNetworkPartition ℕ Car Unit) × (g : Gathered ℕ Car) × (move_links 3 town
      ≡ some (n', g))
    × IsValid n'
    × SameItems
        (g.vehicles_end_leg ++ (g.vehicles_exit_partition ++ on_links n'.links))
        (on_links town.links)
move_links-IsValid_example =
    move_links-IsValid 3 town (omega arith) town-IsValid town_stored town_moves

found_one : get 1 town.links ≡ some (local busy)
unfolding get
found_one = refl

send_veh_en_route-IsEntered_example :
    ((send_veh_en_route starting true 3 town ≡ none)
      × (◌≡◌ {A = Bool} true true)
      × (o : SplitOutLink ℕ Car) × (◌≡◌ {A = SimLink ℕ Car} (local busy) (out o)))
    ⊎ ((refuses {V = Car} (local busy) (start_position true) ≡ false)
        × (n' : SimNetworkPartition ℕ Car Unit) × (events : List Event) × (send_veh_en_route
              starting true 3 town
            ≡ some (n', events))
        × IsEntered starting true 3_000_000_000 (local busy) town n' events)
send_veh_en_route-IsEntered_example =
    send_veh_en_route-IsEntered starting true 3 town (omega arith) town-IsValid refl found_one
      tick_three
