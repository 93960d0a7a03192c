-- ===== src/Network/Tests/NodeRuns.antt =====
-- A run of the moves over the nodes of rust_qsim/src/simulation/network/sim_network.rs, where `f64` is a number of
-- millionths.
use native.Mathlib.Nat.{mul-le-mul_right}
use parallel_qsim_rust.Prelude.{
  ℕ, suc, ◌+◌, ◌-◌, ◌*◌, ◌/◌, ◌^◌, ◌≤◌, ◌<◌, ◌≡◌, refl, true, ltb, ◌==◌, if◌then◌else◌, some, List,
  [], ◌∷◌, length, arith, Bool-cases, inl, inr,
}
use parallel_qsim_rust.Prelude.Maps.{get, put, contains, activate, deactivate}
use parallel_qsim_rust.Time.{tick_to_time, tick_next, tick_saturating_add, tick_sub}
use parallel_qsim_rust.Float.{F64, Event, gt}
use parallel_qsim_rust.Network.Capacity.{has_capacity_left, consume, consume_flow, is_available}
use parallel_qsim_rust.Network.StuckTimer
use parallel_qsim_rust.Network.LinkState.{secs_to_ticks_floor}
use parallel_qsim_rust.Network.Link
use parallel_qsim_rust.Network.Link.Split
use parallel_qsim_rust.Network.Link.Split.{SimLink, local}
use parallel_qsim_rust.Network.Link.Laws.{on_sim_link}
use parallel_qsim_rust.Network.SimNetwork.{SimNetworkPartition}
use parallel_qsim_rust.Network.SimNetwork.Vehicles.{on_links}
use parallel_qsim_rust.Network.SimNetwork.Invariant.{IsValid}
use parallel_qsim_rust.Network.Nodes.{
  Rng, Run, ok, and_then, get_active_in_links, any_link_offers, may_move, should_veh_move_out,
  move_vehicle, release_one, exhaust, visit, sweep, rounds, move_node_capacity_priority, move_each,
  move_nodes,
}
use parallel_qsim_rust.Network.Nodes.Numbers.{FlowLaws, IsUnit, Le}
use parallel_qsim_rust.Network.Nodes.Shapes.{buffer, is_target}
use parallel_qsim_rust.Network.Nodes.Layout.{
  Layout, buffered, IsLaidOut, IsPlaced, IsRouted, IsPlaced-entries,
}
use parallel_qsim_rust.Network.Nodes.Total.{IsMoved, IsServed, move_nodes-IsMoved}
use parallel_qsim_rust.Network.Tests.{cars, Car, passing, offering, quiet, seconds}

instance abbrev millionths : F64 ℕ
millionths = record {
  lit = λ m e. m * 1_000_000 / 10 ^ e;
  add = λ a b. a + b;
  sub = λ a b. a - b;
  mul = λ a b. a * b / 1_000_000;
  div = λ a b. a * 1_000_000 / b;
  neg = λ a. 0;
  fmin = λ a b. if ltb b a then b else a;
  fmax = λ a b. if ltb a b then b else a;
  lt = ltb;
  eq = λ a b. a == b;
  of_u64 = λ n. n * 1_000_000;
  floor_u64 = λ a. a / 1_000_000;
  as_secs = λ nanos. nanos / 1_000;
  from_secs = λ s. s * 1_000;
}

instance abbrev halves : Rng ℕ ℕ
halves = record { random = λ g. (500_000, suc g) }

mul_le_unit : (x a : ℕ) → x ≤ 1_000_000 → x * a / 1_000_000 ≤ a
mul_le_unit x a h = omega (arith, mul-le-mul_right a h)

exact_le_trans : (a b c : ℕ) → Le a b → Le b c → Le a c
exact_le_trans a b c p q = ground arith

exact_add_mono : (a b c : ℕ) → Le 0 a → Le a b → Le 0 c → Le (a + c) (b + c)
exact_add_mono a b c p q r = ground arith

exact_add_grows : (a c : ℕ) → Le 0 a → Le 0 c → Le a (a + c)
exact_add_grows a c p q = ground arith

exact_sub_le : (a c : ℕ) → Le a 1_000 → Le 0 c → Le (a - c) a
exact_sub_le a c p q = ground arith

exact_mul_le : (x a : ℕ) → Le 0 x → Le x 1_000_000 → Le 0 a → Le a 1_000 → Le (x * a / 1_000_000) a
exact_mul_le x a p q r t = ground (arith, mul_le_unit x a)

exact_steps_mono : (a b : ℕ) → Le a b → Le b 1_000 → a ≤ b
exact_steps_mono a b p q = ground arith

exact_steps_drop : (a : ℕ) → gt a 0 ≡ true → Le a 1_000 → a - 1 < a
exact_steps_drop a p q = ground arith

abbrev laws : FlowLaws ℕ
laws = record {
  top = 1_000;
  steps = λ a. a;
  le_trans = exact_le_trans;
  top_le = refl;
  zero_le = refl;
  tiny_le = refl;
  zero_small = refl;
  add_mono = exact_add_mono;
  add_grows = exact_add_grows;
  sub_le = exact_sub_le;
  mul_le = exact_mul_le;
  steps_mono = exact_steps_mono;
  steps_drop = exact_steps_drop;
}

abbrev layout : Layout ℕ
layout = record { source = λ k. 1 == k; cap = λ k. 1; target = λ k. 2 == k }

abbrev crossing : SimNetworkPartition ℕ Car ℕ
crossing = record {
  nodes = (101, record { id = 101; in_links = 1 ∷ [] }) ∷ [];
  links = (1, local offering) ∷ (2, local quiet) ∷ [];
  rng = (101, 0) ∷ [];
  active_nodes = 101 ∷ [];
  active_links = 1 ∷ [];
  veh_counter = 1;
  partition = 0;
  clock = seconds;
}

crossing-IsValid : IsValid crossing
unfolding on_links on_sim_link get Split.id contains
crossing-IsValid = record {
  counted = refl;
  keyed = λ k l e. ground arith;
  active = λ k off l e. ground arith;
}

passing-IsRouted : IsRouted layout 1 passing
passing-IsRouted = record {
  next = 2;
  here = refl;
  peek = refl;
  there = λ time. refl;
  same_id = λ time. refl;
  target = refl;
}

offering-IsPlaced : IsPlaced layout 1 (local offering)
unfolding Split.id Split.flow_cap is_target buffer
offering-IsPlaced = record {
  id = refl;
  flow = λ _. refl;
  target = λ _. refl;
  routed = (passing-IsRouted, tt);
}

quiet-IsPlaced : IsPlaced layout 2 (local quiet)
unfolding Split.id Split.flow_cap is_target buffer
quiet-IsPlaced = record { id = refl; flow = λ _. refl; target = λ _. refl; routed = tt }

crossing-IsLaidOut : IsLaidOut layout crossing.links
unfolding get
crossing-IsLaidOut = record {
  stored = λ k used. elim (Bool-cases (1 == k)) [
    | inl one ↦ (local offering, ground (arith, one))
    | inr other ↦ (local quiet, ground (arith, other, used))
  ];
  placed =
      λ k l. IsPlaced-entries layout crossing.links k l (offering-IsPlaced, (quiet-IsPlaced, tt));
}

node-IsServed : IsServed layout laws 1_003 1 crossing.nodes 101
unfolding get
node-IsServed = record {
  node = record { id = 101; in_links = 1 ∷ [] };
  found = refl;
  sources = (refl, tt);
  bounded = refl;
  enough = omega arith;
}

halves-IsUnit : IsUnit ℕ ℕ
halves-IsUnit g = (refl, refl)

tick_three : tick_to_time seconds 3 ≡ some 3_000_000_000
unfolding tick_to_time
tick_three = refl

seed : get 101 crossing.rng ≡ some 0
unfolding get
seed = refl

one_on_links : length (on_links crossing.links) ≡ 1
unfolding on_links on_sim_link
one_on_links = refl

-- Vehicle 8 is on link 2 behind the moves.
crossed :
    (λ (r : Run (SimNetworkPartition ℕ Car ℕ × List Event)).
        and_then r (λ (n, _). ok (buffered n.links)))
      (move_nodes 1_003 3 crossing)
    ≡ ok 0
unfolding move_nodes buffered move_each move_node_capacity_priority get get_active_in_links contains
    Split.flow_cap rounds sweep visit should_veh_move_out Split.offers_veh may_move
    has_capacity_left put Split.is_veh_stuck StuckTimer.is_stuck StuckTimer.start consume
    consume_flow is_available Split.is_active Split.is_available_link Split.pop_veh Split.push_veh
    Link.exit_time Link.is_active Link.offers_veh Link.pop_veh Link.push_veh Link.push_veh_to_queue
    secs_to_ticks_floor buffer any_link_offers exhaust move_vehicle release_one StuckTimer.reset
    activate deactivate tick_next tick_saturating_add tick_sub tick_to_time
crossed = refl

move_nodes-IsMoved_example :
    (n' : SimNetworkPartition ℕ Car ℕ) × (events : List Event) × (move_nodes 1_003 3 crossing
      ≡ ok (n', events))
    × IsMoved layout (λ k _. refl) laws halves-IsUnit crossing n'
move_nodes-IsMoved_example =
    move_nodes-IsMoved layout (λ k _. refl) laws halves-IsUnit 1_003 3 crossing tick_three
      crossing-IsValid crossing-IsLaidOut (rw one_on_links (node-IsServed, tt)) ((0, seed), tt)
