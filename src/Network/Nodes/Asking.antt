-- ===== src/Network/Nodes/Asking.antt =====
-- rust_qsim/src/simulation/network/sim_network.rs: asking a link whether it may release a vehicle.
use parallel_qsim_rust.Prelude.{
  ℕ, ◌≡◌, refl, ◌∙◌, Bool, true, false, ◌||◌, if◌then◌else◌, none, some, List, ◌∷◌, arith, inl, inr,
  ◌⊎◌,
}
use parallel_qsim_rust.Prelude.Maps.{Map, get, put, get-put}
use parallel_qsim_rust.Time.{Tick}
use parallel_qsim_rust.Float.{F64, Vehicle}
use parallel_qsim_rust.Network.Link.Split
use parallel_qsim_rust.Network.Link.Split.{SimLink}
use parallel_qsim_rust.Network.Nodes.{may_move, should_veh_move_out}
use parallel_qsim_rust.Network.Nodes.Shapes.{
  buffer, offers_veh_total, is_veh_stuck_total, is_available_total,
}
use parallel_qsim_rust.Network.Nodes.Layout.{Layout, IsRouted, IsLaidOut, buffered}
use parallel_qsim_rust.Network.Nodes.Moving.{front-IsRouted, IsMoving, offered-IsMoving}

either : (a b : Bool) → (a ≡ true) ⊎ (b ≡ true) → (a || b) ≡ true
either a b h = ground (arith)

module _ {F V : Type 0} ⦃f : F64 F⦄ ⦃v : Vehicle F V⦄ (y : Layout F) where
  -- The links that a partition moves vehicles from and to are stored.
  pub source_stored :
      (k : ℕ) (m : Map (SimLink F V))
      → y.source k ≡ true
      → IsLaidOut y m
      → (l : SimLink F V) × (get k m ≡ some l)
  source_stored k m src h = h.stored k (either (y.source k) (y.target k) (inl src))

  pub target_stored :
      (k : ℕ) (m : Map (SimLink F V))
      → y.target k ≡ true
      → IsLaidOut y m
      → (l : SimLink F V) × (get k m ≡ some l)
  target_stored k m tgt h = h.stored k (either (y.source k) (y.target k) (inr tgt))

  pub may_move_total :
      (now : Tick) (l : SimLink F V) (x : V) (k : ℕ) (m : Map (SimLink F V)) {c : F}
      → Split.flow_cap l ≡ some c
      → IsRouted y k x
      → IsLaidOut y m
      → (b : Bool) × (may_move now l (some x) m ≡ some (b, m))
  unfolding may_move
  may_move_total now l x k m flow r h =
      let (o, found) = target_stored r.next m r.target h in
      let (stuck, s) = is_veh_stuck_total now l flow in
      let (free, a) = is_available_total o ((h.placed r.next o found).target r.target) in
      ((if stuck then true else free), ground (arith, r.peek, found, s, a))

module _ {F V : Type 0} ⦃f : F64 F⦄ ⦃v : Vehicle F V⦄ where
  nobody_moves :
      (now : Tick) (l : SimLink F V) (m : Map (SimLink F V))
      → may_move now l none m ≡ some (false, m)
  unfolding may_move
  nobody_moves now l m = refl

  -- The front vehicle of the source `id`, if there is one.
  abbrev pub HasFront : ℕ → Map (SimLink F V) → Type 0
  HasFront id m =
      (l : SimLink F V) × (x : V) × (b : List V) × (get id m ≡ some l) × (buffer l ≡ x ∷ b)

module _ {F V : Type 0} ⦃f : F64 F⦄ ⦃v : Vehicle F V⦄ (y : Layout F) (count : (ℕ → Bool) → ℕ) where
  pub should_total :
      (id : ℕ) (now : Tick) (m : Map (SimLink F V)) (active : List ℕ)
      → y.source id ≡ true
      → IsMoving y count m active
      → (b : Bool) × (m' : Map (SimLink F V)) × (should_veh_move_out id now m ≡ some (b, m'))
        × IsMoving y count m' active
        × (buffered m' ≡ buffered m)
        × ((b ≡ false) ⊎ HasFront id m')
  unfolding should_veh_move_out
  should_total id now m active src h =
      let (l, found) = source_stored y id m src h.laid in
      let flow = (h.laid.placed id l found).flow src in
      let (x, l', offers, o) = offers_veh_total now l flow in
      let (moving, same) = offered-IsMoving y count id l l' m active found o h in
      let stored : get id (put id l' m) ≡ some l' = ground (arith, get-put id id l' m) in
      elim o.front [
        | inl nobody ↦ (
          false,
          put id l' m,
          ground (arith, found, offers, nobody, nobody_moves now l' (put id l' m)),
          moving,
          same,
          inl refl,
        )
        | inr (z, b, this, front) ↦
            let kept : buffer l' ≡ z ∷ b = o.buffered ∙ front in
            let routed = front-IsRouted y id l' (put id l' m) z b stored kept moving.laid in
            let (may, e) =
              may_move_total y now l' z id (put id l' m) (o.same.flow ∙ flow) (routed.0)
                moving.laid in
            (
              may,
              put id l' m,
              ground (arith, found, offers, this, e),
              moving,
              same,
              inr (l', z, b, stored, kept),
            )
      ]
