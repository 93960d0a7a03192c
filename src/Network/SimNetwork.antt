-- ===== src/Network/SimNetwork.antt =====
-- rust_qsim/src/simulation/network/sim_network.rs: a partition of the network, as far as `move_links`.
-- `none` is a panic. The events that an operation publishes are part of its result.
pub mod Vehicles
pub mod Conserve
pub mod Gathering
pub mod Invariant
pub mod Total
pub mod Entering
use parallel_qsim_rust.Prelude.{
  ℕ, zero, suc, ◌+◌, ◌-◌, Bool, true, false, not, ◌||◌, if◌then◌else◌, Option, none, some, ◌>>=◌,
  List, [], ◌∷◌, ◌++◌, map, length, ◌==◌, wrapping_add, wrapping_sub,
}
use parallel_qsim_rust.Prelude.Maps.{Map, get, put, contains, activate, deactivate}
use parallel_qsim_rust.Time.{Tick, SimTime, SimClock, tick_to_time}
use parallel_qsim_rust.Float.{F64, gt, Vehicle, Event, link_enter, link_leave}
use parallel_qsim_rust.Network.LinkState.{
  LinkPosition, q_start, waiting, LocalLink, LinkData, QSim, from_link,
}
use parallel_qsim_rust.Network.Link
use parallel_qsim_rust.Network.Link.{SimStep}
use parallel_qsim_rust.Network.Link.Split
use parallel_qsim_rust.Network.Link.Split.{SimLink, SplitInLink, SplitOutLink, local, inward, out}

pub record StorageUpdate (F : Type 0) : Type 0 where
  pub link_id : ℕ
  pub from_part : ℕ
  pub released : F

pub record SimNode : Type 0 where
  pub id : ℕ
  pub in_links : List ℕ

-- `R` is the state of a random number generator.
pub record SimNetworkPartition (F V R : Type 0) : Type 0 where
  pub nodes : Map SimNode
  pub links : Map (SimLink F V)
  pub rng : Map R
  pub active_nodes : List ℕ
  pub active_links : List ℕ
  pub veh_counter : ℕ
  pub partition : ℕ
  pub clock : SimClock

-- What the links need of the partitions of their nodes.
unfoldable pub create_sim_link :
    {F V : Type 0} ⦃f : F64 F⦄ ⦃v : Vehicle F V⦄
    → LinkData F
    → (partition from_part to_part : ℕ) → F
    → QSim F
    → Option (SimLink F V)
unfolding from_link Split.new_out
create_sim_link d partition from_part to_part cell config =
    if from_part == to_part
    then from_link d cell config >>= (λ l. some (local l))
    else if to_part == partition
    then from_link d cell config
      >>= (λ l. some (inward (record { from_part = from_part; local_link = l })))
    else some (out (Split.new_out d cell config.sample_size to_part))

abbrev pub start_position : Bool → LinkPosition
start_position true = waiting
start_position false = q_start

abbrev pub apply_update :
    {F V : Type 0} ⦃f : F64 F⦄ ⦃v : Vehicle F V⦄
    → StorageUpdate F
    → SimLink F V
    → Option (SimLink F V)
apply_update u (local l) = none
apply_update u (inward i) = none
apply_update u (out o) = some (out (Split.apply_storage_cap_update u.released o))

-- The partition with the link that took a vehicle.
abbrev pub enter :
    {F V R : Type 0} ⦃f : F64 F⦄ ⦃v : Vehicle F V⦄
    → ℕ
    → SimLink F V
    → SimNetworkPartition F V R
    → SimNetworkPartition F V R
enter link_id link n = record n {
  links = put link_id link n.links;
  veh_counter = wrapping_add n.veh_counter 1;
  active_links = activate (Split.id link) n.active_links;
}

module _ {F V R : Type 0} ⦃f : F64 F⦄ ⦃v : Vehicle F V⦄ where
  -- `is_route_begin` stands for `events_manager.is_none()`: then no event is published.
  unfoldable pub send_veh_en_route :
      V
      → (is_route_begin : Bool) → Tick
      → SimNetworkPartition F V R
      → Option (SimNetworkPartition F V R × List Event)
  send_veh_en_route x is_route_begin now n = do
    link_id ← v.curr_link_id x
    link ← get link_id n.links
    events ←
        (if is_route_begin
          then some []
          else tick_to_time n.clock now
            >>= (λ time. some (link_enter time (Split.id link) (v.id x) ∷ [])))
    link' ← Split.push_veh x (start_position is_route_begin) now link
    some (enter link_id link' n, events)

  unfoldable pub apply_storage_cap_updates :
      List (StorageUpdate F) → SimNetworkPartition F V R → Option (SimNetworkPartition F V R)
  apply_storage_cap_updates [] n = some n
  apply_storage_cap_updates (u ∷ us) n = do
    link ← get u.link_id n.links
    link' ← apply_update u link
    apply_storage_cap_updates us (record n { links = put u.link_id link' n.links })

-- What the moves of `move_links` gather.
pub record Gathered (F V : Type 0) : Type 0 where
  pub links : Map (SimLink F V)
  pub active_nodes : List ℕ
  pub deactivate : List ℕ
  pub vehicles_exit_partition : List V
  pub vehicles_end_leg : List V
  pub storage_cap_updates : List (StorageUpdate F)
  pub events : List Event

-- One moved link: what it yields, and whether it stays active.
pub record Moved (F V : Type 0) : Type 0 where
  pub link : SimLink F V
  pub active_nodes : List ℕ
  pub is_active : Bool
  pub exits : List V
  pub ends : List V
  pub updates : List (StorageUpdate F)
  pub events : List Event

module _ {F V : Type 0} ⦃f : F64 F⦄ ⦃v : Vehicle F V⦄ where
  -- The step, the activation of the node behind the link, and whether the link stays active.
  unfoldable pub move_local_link :
      Tick → List ℕ → LocalLink F V → Option (SimStep F V × List ℕ × Bool)
  move_local_link now nodes l = do
    s ← Link.do_sim_step now l
    let (node_active, l') = Link.to_nodes_active now s.link
    some (
      record s { link = l' },
      if node_active then activate l'.to nodes else nodes,
      Link.is_active l',
    )

  -- `assert!(diff >= 0)`, which fails on NaN too, then the update for the upstream partition.
  unfoldable pub report : SplitInLink F V → F → Option (List (StorageUpdate F))
  report i diff =
      if gt diff (f.lit 0 0)
      then some
          (record { link_id = i.local_link.id; from_part = i.from_part; released = diff } ∷ [])
      else if f.eq diff (f.lit 0 0)
      then some []
      else none

  unfoldable pub move_link : Tick → List ℕ → SimLink F V → Option (Moved F V)
  unfolding move_local_link
  move_link now nodes (local l) = do
    (s, nodes', active) ← move_local_link now nodes l
    some (record {
      link = local s.link;
      active_nodes = nodes';
      is_active = active;
      exits = [];
      ends = s.ending_vehicles;
      updates = [];
      events = s.events;
    })
  move_link now nodes (inward i) = do
    (s, nodes', active) ← move_local_link now nodes i.local_link
    let i' = record i { local_link = s.link }
    updates ← report i' (f.sub (Split.occupied_storage i) (Split.occupied_storage i'))
    some (record {
      link = inward i';
      active_nodes = nodes';
      is_active = active;
      exits = [];
      ends = s.ending_vehicles;
      updates = updates;
      events = s.events;
    })
  move_link now nodes (out o) =
      let (xs, o') = Split.take_veh o in
      some (record {
        link = out o';
        active_nodes = nodes;
        is_active = false;
        exits = xs;
        ends = [];
        updates = [];
        events = [];
      })

  abbrev pub gather : ℕ → Moved F V → Gathered F V → Gathered F V
  gather id m g = record {
    links = put id m.link g.links;
    active_nodes = m.active_nodes;
    deactivate = if m.is_active then g.deactivate else g.deactivate ++ Split.id m.link ∷ [];
    vehicles_exit_partition = g.vehicles_exit_partition ++ m.exits;
    vehicles_end_leg = g.vehicles_end_leg ++ m.ends;
    storage_cap_updates = g.storage_cap_updates ++ m.updates;
    events = g.events ++ m.events;
  }

  -- The loop over the active links.
  unfoldable pub move_all : Tick → List ℕ → Gathered F V → Option (Gathered F V)
  unfolding move_link
  move_all now [] g = some g
  move_all now (id ∷ ids) g = do
    link ← get id g.links
    m ← move_link now g.active_nodes link
    move_all now ids (gather id m g)

  abbrev pub nothing_gathered : Map (SimLink F V) → List ℕ → Gathered F V
  nothing_gathered links nodes = record {
    links = links;
    active_nodes = nodes;
    deactivate = [];
    vehicles_exit_partition = [];
    vehicles_end_leg = [];
    storage_cap_updates = [];
    events = [];
  }

abbrev pub deactivate_all : List ℕ → List ℕ → List ℕ
deactivate_all [] s = s
deactivate_all (k ∷ ks) s = deactivate_all ks (deactivate k s)

-- The bookkeeping behind the loop.
abbrev pub apply_gathered :
    {F V R : Type 0} → SimNetworkPartition F V R → Gathered F V → SimNetworkPartition F V R
apply_gathered n g = record n {
  links = g.links;
  active_nodes = g.active_nodes;
  active_links = deactivate_all g.deactivate n.active_links;
  veh_counter =
      wrapping_sub (wrapping_sub n.veh_counter (length g.vehicles_exit_partition))
        (length g.vehicles_end_leg);
}

-- The network behind `move_links`, and what it returns.
unfoldable pub move_links :
    {F V R : Type 0} ⦃f : F64 F⦄ ⦃v : Vehicle F V⦄
    → Tick
    → SimNetworkPartition F V R
    → Option (SimNetworkPartition F V R × Gathered F V)
unfolding move_all
move_links now n = do
  g ← move_all now n.active_links (nothing_gathered n.links n.active_nodes)
  some (apply_gathered n g, g)
