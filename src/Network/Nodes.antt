-- ===== src/Network/Nodes.antt =====
-- rust_qsim/src/simulation/network/sim_network.rs: `move_nodes`, which moves vehicles from the buffers of links
-- over the nodes of a partition. The generator `SmallRng` is of the library rand; it is a parameter. The `while` of a node
-- runs on fuel, a round for each random number.
pub mod Shapes
pub mod Layout
pub mod Numbers
pub mod Moving
pub mod Asking
pub mod Visiting
pub mod Sweeping
pub mod Rounds
pub mod InLinks
pub mod Total
use parallel_qsim_rust.Prelude.{
  ℕ, zero, suc, Bool, true, false, not, ◌||◌, if◌then◌else◌, Option, none, some, ◌>>=◌, List, [],
  ◌∷◌, ◌++◌, map,
}
use parallel_qsim_rust.Prelude.Maps.{Map, get, put, contains, activate, deactivate}
use parallel_qsim_rust.Time.{Tick, SimTime, SimClock, tick_next, tick_to_time}
use parallel_qsim_rust.Float.{F64, gt, Vehicle, Event, link_enter, link_leave}
use parallel_qsim_rust.Network.LinkState.{q_start}
use parallel_qsim_rust.Network.Link.Split
use parallel_qsim_rust.Network.Link.Split.{SimLink, local, inward, out}
use parallel_qsim_rust.Network.SimNetwork.{SimNetworkPartition, SimNode, deactivate_all}

-- `Rng::random::<f64>`.
pub record Rng (F R : Type 0) : Type 0 where
  pub random : R → F × R

-- The variables of the moves over a node.
pub record Flow (F V : Type 0) : Type 0 where
  pub avail_capacity : F
  pub sel_cap : F
  pub links : Map (SimLink F V)
  pub active_links : List ℕ
  pub events : List Event

-- An incoming link, and whether it is exhausted.
abbrev pub Entry : Type 0
Entry = ℕ × Bool

-- A loop that ends, panics, or has no fuel left.
pub data Run {ℓ} (A : Type ℓ) : Type ℓ where
  ok : A → Run A
  panics out_of_fuel : Run A

abbrev pub lift {ℓ} : {A : Type ℓ} → Option A → Run A
lift none = panics
lift (some a) = ok a

abbrev pub and_then {ℓ κ} : {A : Type ℓ} {B : Type κ} → Run A → (A → Run B) → Run B
and_then (ok a) k = k a
and_then panics k = panics
and_then out_of_fuel k = out_of_fuel

module _ {F : Type 0} ⦃f : F64 F⦄ where
  -- `a >= b` of `f64`.
  abbrev pub ge : F → F → Bool
  ge a b = f.lt b a || f.eq a b

-- What a link that offers `x` answers to `any`, where `rest` are the answers of the links behind it.
abbrev pub any_other :
    {F V : Type 0}
    → Option V
    → Option (Bool × Map (SimLink F V))
    → Map (SimLink F V)
    → Option (Bool × Map (SimLink F V))
any_other none rest links = rest
any_other (some x) rest links = some (true, links)

module _ {F V : Type 0} ⦃f : F64 F⦄ ⦃v : Vehicle F V⦄ where
  -- `total` starts at 0.
  unfoldable pub get_active_in_links : List ℕ → List ℕ → Map (SimLink F V) → F → Option (List ℕ × F)
  get_active_in_links [] active links total = some ([], total)
  get_active_in_links (id ∷ ids) active links total =
      let skipped = get_active_in_links ids active links total in
      let taken = do
        link ← get id links
        cap ← Split.flow_cap link
        (rest, all) ← get_active_in_links ids active links (f.add total cap)
        some (id ∷ rest, all)
      in if contains id active then taken else skipped

  -- `any` stops at the first link that offers a vehicle.
  unfoldable pub any_link_offers :
      List ℕ → Tick → Map (SimLink F V) → Option (Bool × Map (SimLink F V))
  any_link_offers [] time links = some (false, links)
  any_link_offers (id ∷ ids) time links = do
    link ← get id links
    (x, link') ← Split.offers_veh time link
    any_other x (any_link_offers ids time (put id link' links)) (put id link' links)

  -- What is done with the vehicle that the link `link` offers.
  unfoldable pub may_move :
      Tick → SimLink F V → Option V → Map (SimLink F V) → Option (Bool × Map (SimLink F V))
  may_move now link none links = some (false, links)
  may_move now link (some x) links = do
    next_id ← v.peek_next_route_element x
    out_link ← get next_id links
    stuck ← Split.is_veh_stuck now link
    free ← (if stuck then some true else Split.is_available_link out_link)
    some (free, links)

  -- Asking a link for its vehicle may start its stuck timer.
  unfoldable pub should_veh_move_out :
      ℕ → Tick → Map (SimLink F V) → Option (Bool × Map (SimLink F V))
  should_veh_move_out in_id now links = do
    link ← get in_id links
    (x, link') ← Split.offers_veh now link
    may_move now link' x (put in_id link' links)

  -- For other links the event is published at the receiving partition.
  abbrev pub enter_events : SimLink F V → SimTime → V → List Event
  enter_events (local l) time x = link_enter time l.id (v.id x) ∷ []
  enter_events (inward i) time x = []
  enter_events (out o) time x = []

  unfoldable pub move_vehicle : V → SimClock → Tick → Flow F V → Option (Flow F V)
  move_vehicle x clock now s = do
    old_id ← v.curr_link_id x
    time ← tick_to_time clock now
    let x' = v.left_link x time
    new_id ← v.curr_link_id x'
    new_link ← get new_id s.links
    new_link' ← Split.push_veh x' q_start now new_link
    let links = put new_id new_link' s.links
    let active = activate new_id s.active_links
    old_link ← get old_id links
    still ← Split.is_active old_link
    some (record s {
      links = links;
      active_links = if still then active else deactivate old_id active;
      events = s.events ++ link_leave (v.id x) old_id time ∷ enter_events new_link time x';
    })

  -- The vehicle of a link that may move, once the selected capacity reaches the random number.
  unfoldable pub release_one : ℕ → F → SimClock → Tick → Flow F V → Option (Flow F V)
  release_one id rnd_num clock now s = do
    in_link ← get id s.links
    cap ← Split.flow_cap in_link
    let s' = record s { sel_cap = f.add s.sel_cap cap }
    let moved = do
      (x, in_link') ← Split.pop_veh in_link
      veh ← x
      move_vehicle veh clock now (record s' { links = put id in_link' s.links })
    if ge s'.sel_cap rnd_num then moved else some s'

  unfoldable pub exhaust : ℕ → Flow F V → Option (Flow F V)
  exhaust id s = do
    link ← get id s.links
    cap ← Split.flow_cap link
    some (record s { avail_capacity = f.sub s.avail_capacity cap })

  -- One link of a round that is not exhausted.
  unfoldable pub visit : ℕ → F → SimClock → Tick → Flow F V → Option (Entry × Flow F V)
  visit id rnd_num clock now s = do
    (moves, links) ← should_veh_move_out id now s.links
    let s' = record s { links = links }
    let moved = release_one id rnd_num clock now s' >>= (λ t. some ((id, false), t))
    let exhausted = exhaust id s' >>= (λ t. some ((id, true), t))
    if moves then moved else exhausted

  abbrev pub trickle : Flow F V → Flow F V
  trickle s = record s { avail_capacity = f.sub s.avail_capacity (f.lit 1 6) }

  -- One round over the incoming links.
  unfoldable pub sweep :
      List Entry → F → SimClock → Tick → Flow F V → Option (List Entry × Flow F V)
  sweep [] rnd_num clock now s = some ([], s)
  sweep ((id, true) ∷ es) rnd_num clock now s = do
    (es', s') ← sweep es rnd_num clock now (trickle s)
    some ((id, true) ∷ es', s')
  sweep ((id, false) ∷ es) rnd_num clock now s = do
    (e, s₁) ← visit id rnd_num clock now s
    (es', s') ← sweep es rnd_num clock now s₁
    some (e ∷ es', s')

module _ {F V R : Type 0} ⦃f : F64 F⦄ ⦃v : Vehicle F V⦄ ⦃r : Rng F R⦄ where
  -- The `while` of a node; the generator's state is part of the result.
  unfoldable pub rounds : ℕ → SimClock → Tick → List Entry → R → Flow F V → Run (R × Flow F V)
  rounds zero clock now es g s = out_of_fuel
  rounds (suc n) clock now es g s =
      let (x, g') = r.random g in
      let next =
        and_then (lift (sweep es (f.mul x s.avail_capacity) clock now s))
          (λ (es', s'). rounds n clock now es' g' s') in
      if gt s.avail_capacity (f.lit 1 10) then next else ok (g, s)

  -- Whether the node stays active, and the partition and the events behind it.
  unfoldable pub move_node_capacity_priority :
      ℕ → ℕ → Tick → SimNetworkPartition F V R → Run (Bool × SimNetworkPartition F V R × List Event)
  move_node_capacity_priority fuel node_id now n = and_then (lift (get node_id n.nodes)) λ node.
      and_then (lift (get node_id n.rng)) λ g.
        and_then (lift (get_active_in_links node.in_links n.active_links n.links (f.lit 0 0)))
          λ (active, total).
            and_then
              (rounds fuel n.clock now (map (λ id. (id, false)) active) g (record {
                avail_capacity = total;
                sel_cap = f.lit 0 0;
                links = n.links;
                active_links = n.active_links;
                events = [];
              }))
              λ (g', s).
                and_then (lift (any_link_offers active (tick_next now) s.links)) λ (offers, links).
                  ok (
                    offers,
                    (record n {
                      links = links;
                      active_links = s.active_links;
                      rng = put node_id g' n.rng;
                    }),
                    s.events,
                  )

  -- The loop over the active nodes: the nodes to deactivate, the partition and the events.
  unfoldable pub move_each :
      ℕ
      → Tick
      → List ℕ
      → SimNetworkPartition F V R
      → Run (List ℕ × SimNetworkPartition F V R × List Event)
  move_each fuel now [] n = ok ([], n, [])
  move_each fuel now (id ∷ ids) n =
      and_then (move_node_capacity_priority fuel id now n) λ (active, n₁, events).
        and_then (move_each fuel now ids n₁)
          λ (idle, n₂, later). ok ((if active then idle else id ∷ idle), n₂, events ++ later)

  unfoldable pub move_nodes :
      ℕ → Tick → SimNetworkPartition F V R → Run (SimNetworkPartition F V R × List Event)
  move_nodes fuel now n = and_then (move_each fuel now n.active_nodes n) λ (idle, n', events).
      ok ((record n' { active_nodes = deactivate_all idle n'.active_nodes }), events)
