-- ===== src/Network/Nodes/Total.antt =====
-- rust_qsim/src/simulation/network/sim_network.rs: `move_nodes` returns, and keeps the invariant of a partition.
use parallel_qsim_rust.Prelude.{
  ℕ, ◌+◌, ◌<◌, ◌≡◌, refl, ap, Bool, Bool-cases, true, if◌then◌else◌, some, ◌==◌, List, [], ◌∷◌,
  ◌++◌, length, All, arith, inl, inr,
}
use parallel_qsim_rust.Prelude.Maps.{Map, get, put, get-put}
use parallel_qsim_rust.Time.{Tick, SimTime, tick_next, tick_to_time}
use parallel_qsim_rust.Float.{F64, Vehicle, Event}
use parallel_qsim_rust.Network.Link.Split.{SimLink}
use parallel_qsim_rust.Network.SimNetwork.{SimNetworkPartition, SimNode, deactivate_all}
use parallel_qsim_rust.Network.SimNetwork.Vehicles.{on_links, count_if-true}
use parallel_qsim_rust.Network.SimNetwork.Invariant.{IsValid}
use parallel_qsim_rust.Network.Nodes.{
  Rng, ok, Flow, move_node_capacity_priority, move_each, move_nodes,
}
use parallel_qsim_rust.Network.Nodes.Numbers.{Le, FlowLaws, IsUnit}
use parallel_qsim_rust.Network.Nodes.Layout.{Layout, IsLaidOut, buffered_le, id_count}
use parallel_qsim_rust.Network.Nodes.Moving.{IsMoving}
use parallel_qsim_rust.Network.Nodes.Visiting.{IsFlowing}
use parallel_qsim_rust.Network.Nodes.Sweeping.{AreSources, add_all}
use parallel_qsim_rust.Network.Nodes.Rounds.{rounds_total}
use parallel_qsim_rust.Network.Nodes.InLinks.{
  fresh, open_links-fresh, get_active_in_links_total, any_link_offers_total,
}

-- Every one of the nodes has a generator.
abbrev pub HaveRng : {R : Type 0} → List ℕ → Map R → Type 0
HaveRng {R} ids rng = All (λ k. (g : R) × (get k rng ≡ some g)) ids

put-HaveRng :
    {R : Type 0} (j : ℕ) (g : R) (ids : List ℕ) (rng : Map R)
    → HaveRng ids rng
    → HaveRng ids (put j g rng)
put-HaveRng j g [] rng _ = tt
put-HaveRng j g (k ∷ ids) rng ((old, found), rest) = elim (Bool-cases (j == k)) [
  | inl same ↦ ((g, ground (arith, get-put j k g rng, same)), put-HaveRng j g ids rng rest)
  | inr other ↦
      ((old, ground (arith, get-put j k g rng, other, found)), put-HaveRng j g ids rng rest)
]

module _ {F : Type 0} ⦃f : F64 F⦄ (y : Layout F) (laws : FlowLaws F) where
  -- The node `k` is stored, its incoming links are sources whose capacities sum up to at most `top`, and
  -- there are enough rounds for `vehicles` vehicles.
  pub record IsServed (fuel vehicles : ℕ) (nodes : Map SimNode) (k : ℕ) : Type 0 where
    pub node : SimNode
    pub found : get k nodes ≡ some node
    pub sources : AreSources y (fresh node.in_links)
    pub bounded : Le (add_all y (f.lit 0 0) (fresh node.in_links)) laws.top
    pub enough : length node.in_links + vehicles + laws.steps laws.top < fuel

module _ {F V R : Type 0} ⦃f : F64 F⦄ ⦃v : Vehicle F V⦄ ⦃r : Rng F R⦄ (y : Layout F)
    (caps : (k : ℕ) → y.source k ≡ true → Le (f.lit 0 0) (y.cap k)) (laws : FlowLaws F)
    (unit : IsUnit F R) where
  module _ (count : (ℕ → Bool) → ℕ) where
    move_node_total :
        (fuel id : ℕ) (now : Tick) {time : SimTime} (n : SimNetworkPartition F V R)
        → tick_to_time n.clock now ≡ some time
        → IsServed y laws fuel (count (λ _. true)) n.nodes id
        → (g : R) × (get id n.rng ≡ some g)
        → IsMoving y count n.links n.active_links
        → (b : Bool) × (m : Map (SimLink F V)) × (active : List ℕ) × (g' : R) × (events : List
            Event)
          × (move_node_capacity_priority fuel id now n
              ≡ ok (
                b,
                (record n { links = m; active_links = active; rng = put id g' n.rng }),
                events,
              ))
          × IsMoving y count m active
    unfolding move_node_capacity_priority
    move_node_total fuel id now {time} n clocked served (g, seeded) h =
        let zero_cap = f.lit 0 0 in
        let (ids, total, chosen, s) =
          get_active_in_links_total y caps laws served.node.in_links n.active_links n.links zero_cap
            served.sources h.laid in
        let start : Flow F V = record {
          avail_capacity = total;
          sel_cap = zero_cap;
          links = n.links;
          active_links = n.active_links;
          events = [];
        } in
        let part = s.bounded zero_cap zero_cap laws.zero_le laws.zero_le in
        let below = laws.le_trans _ _ laws.top part served.bounded in
        let fits : Le total laws.top = rw s.sum below in
        let flowing : IsFlowing y count caps laws start = record {
          moving = h;
          avail = fits;
          sel = laws.zero_le;
        } in
        let (g', t, ran, behind) =
          rounds_total y count caps laws unit fuel n.clock now (fresh ids) g start clocked s.sources
            flowing (λ _. s.sum)
            (omega (
              arith,
              open_links-fresh ids,
              s.fewer,
              buffered_le n.links,
              h.counted (λ _. true),
              count_if-true (on_links n.links),
              laws.steps_mono total laws.top fits laws.top_le,
              served.enough,
            )) in
        let (b, m, asked, moving) =
          any_link_offers_total y count ids (tick_next now) t.links t.active_links s.sources
            behind.moving in
        (
          b,
          m,
          t.active_links,
          g',
          t.events,
          ground (arith, served.found, seeded, chosen, ran, asked),
          moving,
        )

    move_each_total :
        (fuel : ℕ) (now : Tick) {time : SimTime} (ids : List ℕ) (n : SimNetworkPartition F V R)
        → tick_to_time n.clock now ≡ some time
        → All (IsServed y laws fuel (count (λ _. true)) n.nodes) ids
        → HaveRng ids n.rng
        → IsMoving y count n.links n.active_links
        → (idle : List ℕ) × (n' : SimNetworkPartition F V R) × (events : List Event) × (move_each
              fuel now ids n
            ≡ ok (idle, n', events))
          × IsMoving y count n'.links n'.active_links
          × (n' ≡ record n { links = n'.links; active_links = n'.active_links; rng = n'.rng })
    unfolding move_each
    move_each_total fuel now [] n clocked _ _ h = ([], n, [], refl, h, refl)
    move_each_total fuel now (id ∷ ids) n clocked (served, rest) ((g, seeded), seeds) h =
        let (b, m, active, g', events, done, moving) =
          move_node_total fuel id now n clocked served (g, seeded) h in
        let n₁ : SimNetworkPartition F V R = record n {
          links = m;
          active_links = active;
          rng = put id g' n.rng;
        } in
        let (idle, n', later, all, last, frame) =
          move_each_total fuel now ids n₁ clocked rest (put-HaveRng id g' ids n.rng seeds) moving in
        (
          (if b then idle else id ∷ idle),
          n',
          events ++ later,
          ground (arith, done, all),
          last,
          frame,
        )

  -- What the moves over the nodes leave of the partition `n`.
  pub record IsMoved (n n' : SimNetworkPartition F V R) : Type 0 where
    pub valid : IsValid n'
    pub laid : IsLaidOut y n'.links
    pub same_vehicles : (p : ℕ → Bool) → id_count p n'.links ≡ id_count p n.links
    pub frame : n' ≡ record n {
      links = n'.links;
      active_nodes = n'.active_nodes;
      active_links = n'.active_links;
      rng = n'.rng;
    }

  -- Take laws of `f64` and random numbers from 0 to 1; a layout that tells from which links vehicles may be moved, each
  -- with a flow capacity of at least 0, and onto which; a valid partition whose stored links follow that layout and
  -- whose buffered vehicles are routed by it; and active nodes that are stored, have a generator and incoming links of
  -- the layout whose capacities sum up to at most `top`. If the tick has a time, and the fuel exceeds the incoming links of
  -- each active node, the vehicles of the partition and the steps up to `top` together, `move_nodes` returns without
  -- a panic. The partition behind it is valid and follows the layout again, has the same vehicles by identity, and differs in
  -- its links, generators and active nodes and links at most.
  pub move_nodes-IsMoved :
      (fuel : ℕ) (now : Tick) (n : SimNetworkPartition F V R) {time : SimTime}
      → tick_to_time n.clock now ≡ some time
      → IsValid n
      → IsLaidOut y n.links
      → All (IsServed y laws fuel (length (on_links n.links)) n.nodes) n.active_nodes
      → HaveRng n.active_nodes n.rng
      → (n' : SimNetworkPartition F V R) × (events : List Event) × (move_nodes fuel now n
          ≡ ok (n', events))
        × IsMoved n n'
  unfolding move_nodes
  move_nodes-IsMoved fuel now n clocked valid laid served seeded =
      let count : (ℕ → Bool) → ℕ = λ p. id_count p n.links in
      let start : IsMoving y count n.links n.active_links = record {
        laid = laid;
        idle = valid.active;
        counted = λ p. refl;
      } in
      let (idle, n', events, done, moving, frame) =
        move_each_total count fuel now n.active_nodes n clocked
          (rw (count_if-true (on_links n.links)) served) seeded start in
      (
        record n' { active_nodes = deactivate_all idle n'.active_nodes },
        events,
        rw done refl,
        record {
          valid = record {
            counted = omega (
              arith,
              ap (λ k. k.veh_counter) frame,
              valid.counted,
              moving.counted (λ _. true),
              count_if-true (on_links n.links),
              count_if-true (on_links n'.links),
            );
            keyed = λ k l e. (moving.laid.placed k l e).id;
            active = moving.idle;
          };
          laid = moving.laid;
          same_vehicles = moving.counted;
          frame =
              ap {A = SimNetworkPartition F V R} {B = SimNetworkPartition F V R}
                (λ k. record k { active_nodes = deactivate_all idle n'.active_nodes }) frame;
        },
      )
