-- ===== src/Engines/Network/Moves.antt =====
-- rust_qsim/src/simulation/engines/network_engine.rs: the moves of the links lose no vehicle on the way to the broker.
use parallel_qsim_rust.Prelude.{
  ◌≡◌, ◌<◌, refl, Bool, true, not, some, List, [], ◌∷◌, ◌++◌, All, count_if, count_if-append,
  SameItems, arith, inl, inr, Bool-cases, u64_mod,
}
use parallel_qsim_rust.Time.{Tick, SimTime, tick_to_time}
use parallel_qsim_rust.Float.{F64, Vehicle}
use parallel_qsim_rust.Network.SimNetwork.Vehicles.{on_links}
use parallel_qsim_rust.Network.SimNetwork.Invariant.{IsValid}
use parallel_qsim_rust.Network.SimNetwork.Total.{AreStored, AllCanMove, move_links-IsValid}
use parallel_qsim_rust.Messaging.Broker.{NetMessageBroker}
use parallel_qsim_rust.Engines.Network.{
  Passengers, NetworkEngine, LinksMoved, report_all, move_links,
}
use parallel_qsim_rust.Engines.Network.Outgoing.{
  waiting, is_known, hand_over_total, report_all-waiting,
}

module _ {A : Type 0} (test : A → Bool) where
  count_if-none : (xs : List A) → All (λ x. test x ≡ true) xs → count_if (λ x. not (test x)) xs ≡ 0
  count_if-none [] _ = refl
  count_if-none (x ∷ xs) (h, hs) = ground (arith, h, count_if-none xs hs)

  none-All : (xs : List A) → count_if (λ x. not (test x)) xs ≡ 0 → All (λ x. test x ≡ true) xs
  none-All [] _ = tt
  none-All (x ∷ xs) h = elim (Bool-cases (test x)) [
    | inl passes ↦ (passes, none-All xs (ground (arith, h, passes)))
    | inr fails ↦ absurd (ground (arith, h, fails))
  ]

module _ {F V R : Type 0} ⦃f : F64 F⦄ ⦃v : Vehicle F V⦄ ⦃ps : Passengers V⦄ where
  -- What the moves of the links leave of the engine `e` and the broker `b`.
  pub record AreMoved (e : NetworkEngine F V R) (b : NetMessageBroker F V) (r : LinksMoved F V R)
      : Type 0 where
    pub valid : IsValid r.engine.network
    pub same_vehicles :
        SameItems
          (r.vehicles_end_leg ++ (waiting r.broker ++ on_links r.engine.network.links))
          (waiting b ++ on_links e.network.links)

  -- Take an engine with a valid partition of fewer than 2^64 vehicles, whose active links are stored and whose links can
  -- all move, at a tick that has a time; and a broker that knows the partition of the link of every vehicle. The
  -- moves of the links return without a panic. The partition is valid again, and the vehicles that end their leg, those in
  -- the messages to be sent and those on the links are together the vehicles that were in such messages or on
  -- links before.
  pub move_links-AreMoved :
      (now : Tick) (e : NetworkEngine F V R) (b : NetMessageBroker F V) {time : SimTime}
      → e.network.veh_counter < u64_mod
      → IsValid e.network
      → AreStored e.network.active_links e.network.links
      → AllCanMove now e.network.links
      → tick_to_time e.clock now ≡ some time
      → All (λ x. is_known F b.link_mapping x ≡ true) (on_links e.network.links)
      → (r : LinksMoved F V R) × (move_links now e b ≡ some r) × AreMoved e b r
  unfolding move_links
  move_links-AreMoved now e b fits valid stored all clocked known =
      let (n, g, moved, valid', same) = move_links-IsValid now e.network fits valid stored all in
      let unknown : V → Bool = λ x. not (is_known F b.link_mapping x) in
      let leaving = none-All (is_known F b.link_mapping) g.vehicles_exit_partition (
        omega (
          arith,
          same unknown,
          count_if-none (is_known F b.link_mapping) (on_links e.network.links) known,
          count_if-append unknown g.vehicles_end_leg
              (g.vehicles_exit_partition ++ on_links n.links),
          count_if-append unknown g.vehicles_exit_partition (on_links n.links),
        )) in
      let (b₁, events, handed, counts) =
        hand_over_total e.clock now g.vehicles_exit_partition b clocked leaving in
      let b₂ = report_all now g.storage_cap_updates b₁ in
      (
        record {
          engine = record e { network = n };
          broker = b₂;
          vehicles_end_leg = g.vehicles_end_leg;
          events = g.events;
          partition_events = events;
        },
        rw moved (rw handed refl),
        record {
          valid = valid';
          same_vehicles = λ p. omega (
            arith,
            same p,
            counts p,
            report_all-waiting p now g.storage_cap_updates b₁,
            count_if-append p g.vehicles_end_leg (waiting b₂ ++ on_links n.links),
            count_if-append p (waiting b₂) (on_links n.links),
            count_if-append p g.vehicles_end_leg (g.vehicles_exit_partition ++ on_links n.links),
            count_if-append p g.vehicles_exit_partition (on_links n.links),
            count_if-append p (waiting b) (on_links e.network.links),
          );
        },
      )
