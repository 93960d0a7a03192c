-- ===== src/Network/Nodes/Moving.antt =====
-- rust_qsim/src/simulation/network/sim_network.rs: what a move over a node does to the links of a partition.
use parallel_qsim_rust.Prelude.{
  ℕ, suc, ◌≡◌, ◌≢◌, ap, ◌∙◌, subst, Bool, true, false, if◌then◌else◌, Option, some, List, [], ◌∷◌,
  length, All, count_if, arith, inl, inr, ◌⊎◌,
}
use parallel_qsim_rust.Prelude.Maps.{
  Map, get, put, contains, activate, deactivate, contains-activate, contains-deactivate,
}
use parallel_qsim_rust.Time.{SimTime}
use parallel_qsim_rust.Float.{F64, Vehicle}
use parallel_qsim_rust.Network.Link.Split.{SimLink}
use parallel_qsim_rust.Network.Link.Laws.{on_sim_link}
use parallel_qsim_rust.Network.SimNetwork.Vehicles.{on_links-put}
use parallel_qsim_rust.Network.SimNetwork.Gathering.{IsEmptyAt, put-IsEmptyAt}
use parallel_qsim_rust.Network.Nodes.Shapes.{buffer, IsOffered, IsPopped, IsPushed}
use parallel_qsim_rust.Network.Nodes.Layout.{
  Layout, IsRouted, IsLaidOut, IsSameLink-IsPlaced, put-IsLaidOut, buffered, buffered-put, id_count,
}

-- The active links behind a move from `old` to `next`.
abbrev pub active_after : (old next : ℕ) → Bool → List ℕ → List ℕ
active_after old next still active =
    if still then activate next active else deactivate old (activate next active)

idle_after :
    (old next k : ℕ) (still : Bool) (active : List ℕ)
    → contains k (active_after old next still active) ≡ false
    → ((old ≡ k) × (still ≡ false)) ⊎ ((contains k active ≡ false) × (next ≢ k))
idle_after old next k true active h = ground (arith, contains-activate next k active)
idle_after old next k false active h =
    ground
      (arith, contains-activate next k active, contains-deactivate old k (activate next active))

module _ {F V : Type 0} ⦃f : F64 F⦄ ⦃v : Vehicle F V⦄ (y : Layout F) where
  -- The vehicles of a buffer are routed.
  pub front-IsRouted :
      (k : ℕ) (l : SimLink F V) (m : Map (SimLink F V)) (x : V) (b : List V)
      → get k m ≡ some l
      → buffer l ≡ x ∷ b
      → IsLaidOut y m
      → All (IsRouted y k) (x ∷ b)
  front-IsRouted k l m x b found front h =
      subst (All (IsRouted y k)) front (h.placed k l found).routed

  pub popped_laid :
      (k : ℕ) (l l₁ : SimLink F V) (m : Map (SimLink F V)) (x : V) (b : List V)
      → get k m ≡ some l
      → buffer l ≡ x ∷ b
      → IsPopped x b l l₁
      → IsLaidOut y m
      → IsLaidOut y (put k l₁ m)
  popped_laid k l l₁ m x b found front popped h =
      let routed = front-IsRouted k l m x b found front h in
      put-IsLaidOut y k l₁ m
        (IsSameLink-IsPlaced y k l l₁ popped.same (rw popped.buffered (routed.1))
          (h.placed k l found))
        h

  pub pushed_laid :
      (k : ℕ) (x : V) (l l' : SimLink F V) (m : Map (SimLink F V))
      → get k m ≡ some l
      → IsPushed x l l'
      → IsLaidOut y m
      → IsLaidOut y (put k l' m)
  pushed_laid k x l l' m found pushed h =
      let at = h.placed k l found in
      put-IsLaidOut y k l' m
        (IsSameLink-IsPlaced y k l l' pushed.same (rw pushed.buffered at.routed) at) h

module _ {F V : Type 0} ⦃f : F64 F⦄ ⦃v : Vehicle F V⦄ (y : Layout F) (count : (ℕ → Bool) → ℕ) where
  -- The links are laid out, those that are not active have no vehicle, and the vehicles are counted by `count`.
  pub record IsMoving (m : Map (SimLink F V)) (active : List ℕ) : Type 0 where
    pub laid : IsLaidOut y m
    pub idle : (k : ℕ) → contains k active ≡ false → IsEmptyAt k m
    pub counted : (p : ℕ → Bool) → id_count p m ≡ count p

  -- An offer changes none of this.
  pub offered-IsMoving :
      (k : ℕ) (l l' : SimLink F V) (m : Map (SimLink F V)) (active : List ℕ) {x : Option V}
      → get k m ≡ some l
      → IsOffered x l l'
      → IsMoving m active
      → IsMoving (put k l' m) active × (buffered (put k l' m) ≡ buffered m)
  offered-IsMoving k l l' m active found o h =
      let placed = h.laid.placed k l found in
      (
        record {
          laid =
              put-IsLaidOut y k l' m
                (IsSameLink-IsPlaced y k l l' o.same (rw o.buffered placed.routed) placed) h.laid;
          idle = λ j off.
              put-IsEmptyAt k j l' m (λ e. o.on ∙ h.idle j off l (rw (← e) found))
                (λ _. h.idle j off);
          counted = λ p. omega (
            arith,
            h.counted p,
            on_links-put (λ z. p (v.id z)) k l l' m found,
            ap (count_if (λ z. p (v.id z))) o.on,
          );
        },
        omega (arith, buffered-put k l l' m found, ap length o.buffered),
      )

  module _ (old next : ℕ) (l l₁ ln ln' lo : SimLink F V) (m : Map (SimLink F V)) (active : List ℕ)
      (x : V) (b : List V) (time : SimTime) (still : Bool) (found : get old m ≡ some l)
      (front : buffer l ≡ x ∷ b) (popped : IsPopped x b l l₁)
      (there : get next (put old l₁ m) ≡ some ln) (pushed : IsPushed (v.left_link x time) ln ln')
      (behind : get old (put next ln' (put old l₁ m)) ≡ some lo)
      (stays : still ≡ false → on_sim_link lo ≡ []) (same_id : v.id (v.left_link x time) ≡ v.id x)
      (h : IsMoving m active) where
    abbrev m₂ : Map (SimLink F V)
    m₂ = put next ln' (put old l₁ m)

    moved_laid : IsLaidOut y m₂
    moved_laid =
        pushed_laid y next (v.left_link x time) ln ln' (put old l₁ m) there pushed
          (popped_laid y old l l₁ m x b found front popped h.laid)

    not_empty : on_sim_link l ≢ []
    not_empty e = absurd (omega (arith, popped.on (λ _. true), ap (count_if (λ _. true)) e))

    moved_idle : (k : ℕ) → contains k (active_after old next still active) ≡ false → IsEmptyAt k m₂
    moved_idle k off = elim (idle_after old next k still active off) [
      | inl (this, emptied) ↦ λ a e.
          let same : lo ≡ a = ground (arith, this, behind, e) in
          subst (λ z. on_sim_link z ≡ []) same (stays emptied)
      | inr (idle, other) ↦
          put-IsEmptyAt next k ln' (put old l₁ m) (λ e. absurd (other e))
            (λ _.
              put-IsEmptyAt old k l₁ m (λ e. absurd (not_empty (h.idle k idle l (rw (← e) found))))
                (λ _. h.idle k idle))
    ]

    moved_count : (p : ℕ → Bool) → id_count p m₂ ≡ count p
    moved_count p =
        let q : V → Bool = λ z. p (v.id z) in
        ground (
          arith,
          h.counted p,
          on_links-put q old l l₁ m found,
          on_links-put q next ln ln' (put old l₁ m) there,
          popped.on q,
          pushed.on q,
          same_id,
        )

    -- A vehicle that moves stays in the partition, and is buffered no longer.
    pub moved-IsMoving :
        IsMoving m₂ (active_after old next still active) × (suc (buffered m₂) ≡ buffered m)
    moved-IsMoving = (
      record { laid = moved_laid; idle = moved_idle; counted = moved_count },
      omega (
        arith,
        buffered-put old l l₁ m found,
        buffered-put next ln ln' (put old l₁ m) there,
        ap length front,
        ap length popped.buffered,
        ap length pushed.buffered,
      ),
    )
