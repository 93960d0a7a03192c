-- ===== src/Network/Nodes/Shapes.antt =====
-- rust_qsim/src/simulation/network/link.rs: what the operations that `move_nodes` calls do to a link of any kind.
use parallel_qsim_rust.Prelude.{
  ◌≡◌, refl, ap, ◌∙◌, Bool, true, false, Option, none, some, List, [], ◌∷◌, SameItems, arith, inl,
  inr, ◌⊎◌, Bool-cases, count_if-append,
}
use parallel_qsim_rust.Time.{Tick}
use parallel_qsim_rust.Float.{F64, Vehicle}
use parallel_qsim_rust.Network.Capacity.{has_capacity_left, consume_flow}
use parallel_qsim_rust.Network.LinkState.{q_start, LocalLink}
use parallel_qsim_rust.Network.Link
use parallel_qsim_rust.Network.Link.Step.{on_link}
use parallel_qsim_rust.Network.Link.Split
use parallel_qsim_rust.Network.Link.Split.{SimLink, local, inward, out}
use parallel_qsim_rust.Network.Link.Laws.{on_sim_link, push_local, push_last, pop_eq}
use parallel_qsim_rust.Network.SimNetwork.Conserve.{active_parts}

module _ {F V : Type 0} ⦃f : F64 F⦄ ⦃v : Vehicle F V⦄ where
  -- The vehicles that a link may offer to the node behind it.
  unfoldable pub buffer : SimLink F V → List V
  buffer (local l) = l.buffer
  buffer (inward i) = i.local_link.buffer
  buffer (out o) = []

  -- Whether vehicles may be moved onto a link here.
  unfoldable pub is_target : SimLink F V → Bool
  is_target (local l) = true
  is_target (inward i) = false
  is_target (out o) = true

  -- The same link, with other vehicles and other capacities left.
  pub record IsSameLink (k k' : SimLink F V) : Type 0 where
    pub id : Split.id k' ≡ Split.id k
    pub flow : Split.flow_cap k' ≡ Split.flow_cap k
    pub target : is_target k' ≡ is_target k

  -- What a link offers, and how it is behind that.
  pub record IsOffered (x : Option V) (k k' : SimLink F V) : Type 0 where
    pub same : IsSameLink k k'
    pub buffered : buffer k' ≡ buffer k
    pub on : on_sim_link k' ≡ on_sim_link k
    pub front : (x ≡ none) ⊎ ((y : V) × (b : List V) × (x ≡ some y) × (buffer k ≡ y ∷ b))

  offer_local :
      (now : Tick) (b : List V) (l : LocalLink F V)
      → let l' = (Link.offer now b l).1 in
        let x = (Link.offer now b l).0 in
        (l'.id ≡ l.id)
        × (l'.flow_cap ≡ l.flow_cap)
        × (l'.buffer ≡ l.buffer)
        × (on_link l' ≡ on_link l)
        × ((x ≡ none) ⊎ ((y : V) × (c : List V) × (x ≡ some y) × (b ≡ y ∷ c)))
  offer_local now [] l = (refl, refl, refl, refl, inl refl)
  offer_local now (x ∷ b) l = elim (Bool-cases (has_capacity_left l.flow_cap)) [
    | inl e ↦ rw e (refl, refl, refl, refl, inr (x, b, refl, refl))
    | inr e ↦ rw e (refl, refl, refl, refl, inl refl)
  ]

  pub offers_veh_total :
      (now : Tick) (k : SimLink F V) {c : F}
      → Split.flow_cap k ≡ some c
      → (x : Option V) × (k' : SimLink F V) × (Split.offers_veh now k ≡ some (x, k'))
        × IsOffered x k k'
  unfolding Split.offers_veh Split.flow_cap Split.id is_target buffer on_sim_link
  offers_veh_total now (local l) e =
      let (id, flow, buf, on, front) = offer_local now l.buffer l in
      (
        (Link.offers_veh now l).0,
        local (Link.offers_veh now l).1,
        refl,
        record {
          same = record { id = id; flow = ap (λ w. some w.capacity_per_tick) flow; target = refl };
          buffered = buf;
          on = on;
          front = front;
        },
      )
  offers_veh_total now (inward i) e =
      let (id, flow, buf, on, front) = offer_local now i.local_link.buffer i.local_link in
      (
        (Link.offers_veh now i.local_link).0,
        Split.set_local i (Link.offers_veh now i.local_link).1,
        refl,
        record {
          same = record { id = id; flow = ap (λ w. some w.capacity_per_tick) flow; target = refl };
          buffered = buf;
          on = on;
          front = front;
        },
      )
  offers_veh_total now (out o) e = cc

  -- The link behind the removal of the front vehicle.
  pub record IsPopped (x : V) (b : List V) (k k' : SimLink F V) : Type 0 where
    pub same : IsSameLink k k'
    pub buffered : buffer k' ≡ b
    pub on : SameItems (x ∷ on_sim_link k') (on_sim_link k)

  abbrev popped : V → List V → LocalLink F V → LocalLink F V
  popped x b l = (Link.pop (x ∷ b) l).1

  pop_local :
      (l : LocalLink F V) {x : V} {b : List V}
      → l.buffer ≡ x ∷ b
      → Link.pop_veh l ≡ (some x, popped x b l)
  pop_local l h = pop_eq l ∙ ap (λ c. Link.pop c l) h

  popped-SameItems :
      (l : LocalLink F V) {x : V} {b : List V}
      → l.buffer ≡ x ∷ b
      → SameItems (x ∷ on_link (popped x b l)) (on_link l)
  popped-SameItems l h p = simp (h, count_if-append) (ground arith)

  pub pop_veh_total :
      (k : SimLink F V) {c : F} {x : V} {b : List V}
      → Split.flow_cap k ≡ some c
      → buffer k ≡ x ∷ b
      → (k' : SimLink F V) × (Split.pop_veh k ≡ some (some x, k')) × IsPopped x b k k'
  unfolding Split.pop_veh Split.flow_cap Split.id is_target buffer on_sim_link consume_flow
  pop_veh_total (local l) {x = x} {b = b} e h = (
    local (popped x b l),
    ap (λ r. some (r.0, local r.1)) (pop_local l h),
    record {
      same = record { id = refl; flow = refl; target = refl };
      buffered = refl;
      on = popped-SameItems l h;
    },
  )
  pop_veh_total (inward i) {x = x} {b = b} e h = (
    Split.set_local i (popped x b i.local_link),
    ap (λ r. some (r.0, Split.set_local i r.1)) (pop_local i.local_link h),
    record {
      same = record { id = refl; flow = refl; target = refl };
      buffered = refl;
      on = popped-SameItems i.local_link h;
    },
  )
  pop_veh_total (out o) e h = cc

  -- The link behind a push.
  pub record IsPushed (x : V) (k k' : SimLink F V) : Type 0 where
    pub same : IsSameLink k k'
    pub buffered : buffer k' ≡ buffer k
    pub on : SameItems (on_sim_link k') (x ∷ on_sim_link k)

  pub push_veh_total :
      (x : V) (now : Tick) (k : SimLink F V)
      → is_target k ≡ true
      → (k' : SimLink F V) × (Split.push_veh x q_start now k ≡ some k') × IsPushed x k k'
  unfolding Split.push_veh Link.push_veh Split.flow_cap Split.id is_target buffer on_sim_link
  push_veh_total x now (local l) e = (
    _,
    refl,
    record {
      same = record { id = refl; flow = refl; target = refl };
      buffered = refl;
      on = push_local x q_start now l;
    },
  )
  push_veh_total x now (inward i) e = cc
  push_veh_total x now (out o) e = (
    _,
    refl,
    record {
      same = record { id = refl; flow = refl; target = refl };
      buffered = refl;
      on = push_last x o.q;
    },
  )

  pub is_active_total :
      (k : SimLink F V) {c : F}
      → Split.flow_cap k ≡ some c
      → (b : Bool) × (Split.is_active k ≡ some b) × (b ≡ false → on_sim_link k ≡ [])
  unfolding Split.is_active Split.flow_cap on_sim_link
  is_active_total (local l) e = (_, refl, active_parts l)
  is_active_total (inward i) e = (_, refl, active_parts i.local_link)
  is_active_total (out o) e = cc

  pub is_veh_stuck_total :
      (now : Tick) (k : SimLink F V) {c : F}
      → Split.flow_cap k ≡ some c
      → (b : Bool) × (Split.is_veh_stuck now k ≡ some b)
  unfolding Split.is_veh_stuck Split.flow_cap
  is_veh_stuck_total now (local l) e = (_, refl)
  is_veh_stuck_total now (inward i) e = (_, refl)
  is_veh_stuck_total now (out o) e = cc

  pub is_available_total :
      (k : SimLink F V) → is_target k ≡ true → (b : Bool) × (Split.is_available_link k ≡ some b)
  unfolding Split.is_available_link is_target
  is_available_total (local l) e = (_, refl)
  is_available_total (inward i) e = cc
  is_available_total (out o) e = (_, refl)
