-- ===== src/Network/SimNetwork/Invariant.antt =====
-- rust_qsim/src/simulation/network/sim_network.rs: the invariant of a partition, and that entering vehicles and the
-- moves of the links keep it.
use parallel_qsim_rust.Prelude.{
  ℕ, ◌+◌, ◌≡◌, ◌<◌, ◌∙◌, subst, Bool, true, false, some, List, [], ◌∷◌, ◌++◌, length, count_if,
  count_if-append, SameItems, arith, inl, inr, Option-cases, u64_mod, ◌⊎◌,
}
use parallel_qsim_rust.Prelude.Maps.{
  get, contains, deactivate, contains-activate, contains-deactivate,
}
use parallel_qsim_rust.Time.{Tick}
use parallel_qsim_rust.Float.{F64, Vehicle}
use parallel_qsim_rust.Network.Link.Split
use parallel_qsim_rust.Network.Link.Split.{SimLink}
use parallel_qsim_rust.Network.Link.Laws.{on_sim_link}
use parallel_qsim_rust.Network.SimNetwork.{
  SimNetworkPartition, Gathered, move_all, move_links, deactivate_all, nothing_gathered,
  apply_gathered, enter,
}
use parallel_qsim_rust.Network.SimNetwork.Vehicles.{on_links, on_links-put, count_if-true}
use parallel_qsim_rust.Network.SimNetwork.Gathering.{
  IsKeyed, IsEmptyAt, IsGathered, put-IsKeyed, put-IsEmptyAt, move_all-total, move_all-IsEmptyAt,
  move_all-IsGathered,
}

nothing_listed : (k : ℕ) → contains k [] ≡ true → ⊥
unfolding contains
nothing_listed k h = cc

contains-deactivate_all :
    (k : ℕ) (ks s : List ℕ)
    → contains k (deactivate_all ks s) ≡ false
    → (contains k ks ≡ true) ⊎ (contains k s ≡ false)
unfolding contains
contains-deactivate_all k [] s h = inr h
contains-deactivate_all k (j ∷ ks) s h =
    ground (arith, contains-deactivate_all k ks (deactivate j s) h, contains-deactivate j k s)

module _ {F V R : Type 0} ⦃f : F64 F⦄ ⦃v : Vehicle F V⦄ where
  -- The counter is the number of vehicles, every link is stored under its identity, and a link that is
  -- not active has no vehicle.
  pub record IsValid (n : SimNetworkPartition F V R) : Type 0 where
    pub counted : n.veh_counter ≡ length (on_links n.links)
    pub keyed : IsKeyed n.links
    pub active : (k : ℕ) → contains k n.active_links ≡ false → IsEmptyAt k n.links

  module _ (now : Tick) (n : SimNetworkPartition F V R) (g : Gathered F V)
      (fits : n.veh_counter < u64_mod) (h : IsValid n)
      (done : move_all now n.active_links (nothing_gathered n.links n.active_nodes) ≡ some g) where
    gathered_total :
        (p : V → Bool)
        → count_if p g.vehicles_end_leg
            + count_if p g.vehicles_exit_partition
            + count_if p (on_links g.links)
          ≡ count_if p (on_links n.links)
    gathered_total p = omega (
      arith,
      move_all-total now n.active_links (nothing_gathered n.links n.active_nodes) g done p,
    )

    gathered-SameItems :
        SameItems
          (g.vehicles_end_leg ++ (g.vehicles_exit_partition ++ on_links g.links))
          (on_links n.links)
    gathered-SameItems p = simp count_if-append (omega (arith, gathered_total p))

    gathered-IsValid : IsValid (apply_gathered n g)
    gathered-IsValid =
        let start : IsGathered (nothing_gathered n.links n.active_nodes) = record {
          keyed = h.keyed;
          emptied = λ k c. absurd (nothing_listed k c);
        } in
        let gathered = move_all-IsGathered now n.active_links _ g done start in
        record {
          counted = omega (
            arith,
            h.counted,
            gathered_total (λ _. true),
            count_if-true g.vehicles_end_leg,
            count_if-true g.vehicles_exit_partition,
            count_if-true (on_links g.links),
            count_if-true (on_links n.links),
          );
          keyed = gathered.keyed;
          active = λ k off. elim (contains-deactivate_all k g.deactivate n.active_links off) [
            | inl listed ↦ gathered.emptied k listed
            | inr idle ↦ move_all-IsEmptyAt now n.active_links _ g done k (h.active k idle)
          ];
        }

  -- `move_links` keeps the invariant, and neither loses nor adds a vehicle: those that leave the
  -- partition, those that end their leg and those that stay are the vehicles before.
  pub moved_partition :
      (now : Tick) (n : SimNetworkPartition F V R) {n' : SimNetworkPartition F V R}
      {g : Gathered F V}
      → n.veh_counter < u64_mod
      → IsValid n
      → move_links now n ≡ some (n', g)
      → IsValid n'
        × SameItems
            (g.vehicles_end_leg ++ (g.vehicles_exit_partition ++ on_links n'.links))
            (on_links n.links)
  unfolding move_links
  moved_partition now n {n'} {g} fits h e =
      elim (Option-cases (move_all now n.active_links (nothing_gathered n.links n.active_nodes))) [
        | inl failed ↦ ground (arith, failed)
        | inr (g₀, done) ↦
            let pair : ◌≡◌ {A = SimNetworkPartition F V R × Gathered F V} (apply_gathered n g₀, g₀)
                (n', g) =
              ground (arith, done) in
            subst
              (λ (r : SimNetworkPartition F V R × Gathered F V).
                IsValid r.0
                × SameItems
                    (r.1.vehicles_end_leg ++ (r.1.vehicles_exit_partition ++ on_links r.0.links))
                    (on_links n.links))
              pair (gathered-IsValid now n g₀ fits h done, gathered-SameItems now n g₀ fits h done)
      ]

  module _ (x : V) (link_id : ℕ) (link link' : SimLink F V) (n : SimNetworkPartition F V R)
      (found : get link_id n.links ≡ some link) (key : Split.id link' ≡ Split.id link)
      (same : SameItems (on_sim_link link') (x ∷ on_sim_link link)) where
    pub enter-SameItems : SameItems (on_links (enter link_id link' n).links) (x ∷ on_links n.links)
    enter-SameItems p = ground (arith, same p, on_links-put p link_id link link' n.links found)

    pub enter-IsValid : n.veh_counter + 1 < u64_mod → IsValid n → IsValid (enter link_id link' n)
    enter-IsValid fits h =
        let name : Split.id link' ≡ link_id = key ∙ h.keyed link_id link found in
        record {
          counted = omega (
            arith,
            h.counted,
            enter-SameItems (λ _. true),
            count_if-true (on_links (enter link_id link' n).links),
            count_if-true (on_links n.links),
          );
          keyed = put-IsKeyed link_id link' n.links name h.keyed;
          active = λ k off.
              put-IsEmptyAt link_id k link' n.links
                (λ e. ground (arith, name, contains-activate (Split.id link') k n.active_links))
                (λ _.
                  h.active k (ground (arith, contains-activate (Split.id link') k n.active_links)));
        }
