-- ===== src/Network/Nodes/Visiting.antt =====
-- rust_qsim/src/simulation/network/sim_network.rs: a visit of one incoming link in the loop of a node.
use parallel_qsim_rust.Prelude.{
  ℕ, suc, ◌≡◌, refl, ◌∙◌, Bool, true, false, some, List, ◌∷◌, ◌++◌, arith, inl, inr, ◌⊎◌,
  Bool-cases,
}
use parallel_qsim_rust.Prelude.Maps.{get, put}
use parallel_qsim_rust.Time.{Tick, SimTime, SimClock, tick_to_time}
use parallel_qsim_rust.Float.{F64, Vehicle, link_leave}
use parallel_qsim_rust.Network.Link.Split.{SimLink}
use parallel_qsim_rust.Network.Nodes.{
  Flow, ge, move_vehicle, release_one, exhaust, visit, enter_events,
}
use parallel_qsim_rust.Network.Nodes.Numbers.{Le, FlowLaws}
use parallel_qsim_rust.Network.Nodes.Shapes.{
  buffer, IsPopped, pop_veh_total, push_veh_total, is_active_total,
}
use parallel_qsim_rust.Network.Nodes.Layout.{Layout, buffered}
use parallel_qsim_rust.Network.Nodes.Asking.{HasFront, source_stored, target_stored, should_total}
use parallel_qsim_rust.Network.Nodes.Moving.{
  front-IsRouted, popped_laid, pushed_laid, IsMoving, active_after, moved-IsMoving,
}

module _ {F V : Type 0} ⦃f : F64 F⦄ ⦃v : Vehicle F V⦄ (y : Layout F) (count : (ℕ → Bool) → ℕ) where
  module _ (caps : (k : ℕ) → y.source k ≡ true → Le (f.lit 0 0) (y.cap k)) (laws : FlowLaws F) where
    -- What holds of the variables of the loop.
    pub record IsFlowing (s : Flow F V) : Type 0 where
      pub moving : IsMoving y count s.links s.active_links
      pub avail : Le s.avail_capacity laws.top
      pub sel : Le (f.lit 0 0) s.sel_cap

    move_vehicle_total :
        (id : ℕ) (l l₁ : SimLink F V) (x : V) (b : List V) (clock : SimClock) (now : Tick)
        (time : SimTime) (s : Flow F V)
        → tick_to_time clock now ≡ some time
        → y.source id ≡ true
        → get id s.links ≡ some l
        → buffer l ≡ x ∷ b
        → IsPopped x b l l₁
        → IsFlowing s
        → (s' : Flow F V) × (move_vehicle x clock now (record s { links = put id l₁ s.links })
            ≡ some s')
          × IsFlowing s'
          × (s'.avail_capacity ≡ s.avail_capacity)
          × (s'.sel_cap ≡ s.sel_cap)
          × (suc (buffered s'.links) ≡ buffered s.links)
    unfolding move_vehicle
    move_vehicle_total id l l₁ x b clock now time s clocked src found front popped h =
        let r = (front-IsRouted y id l s.links x b found front h.moving.laid).0 in
        let first = popped_laid y id l l₁ s.links x b found front popped h.moving.laid in
        let m₁ = put id l₁ s.links in
        let x' = v.left_link x time in
        let (ln, there) = target_stored y r.next m₁ r.target first in
        let (ln', pushes, pushed) =
          push_veh_total x' now ln ((first.placed r.next ln there).target r.target) in
        let second = pushed_laid y r.next x' ln ln' m₁ there pushed first in
        let m₂ = put r.next ln' m₁ in
        let (lo, behind) = source_stored y id m₂ src second in
        let (still, asked, stays) = is_active_total lo ((second.placed id lo behind).flow src) in
        let (moving, fewer) =
          moved-IsMoving y count id r.next l l₁ ln ln' lo s.links s.active_links x b time still
            found front popped there pushed behind stays (r.same_id time) h.moving in
        (
          record s {
            links = m₂;
            active_links = active_after id r.next still s.active_links;
            events = s.events ++ link_leave (v.id x) id time ∷ enter_events ln time x';
          },
          ground (arith, r.here, clocked, r.there time, there, pushes, behind, asked),
          record { moving = moving; avail = h.avail; sel = h.sel },
          refl,
          refl,
          fewer,
        )

    pub release_one_total :
        (id : ℕ) (rnd_num : F) (clock : SimClock) (now : Tick) {time : SimTime} (s : Flow F V)
        → tick_to_time clock now ≡ some time
        → y.source id ≡ true
        → HasFront id s.links
        → IsFlowing s
        → (s' : Flow F V) × (release_one id rnd_num clock now s ≡ some s')
          × IsFlowing s'
          × (s'.avail_capacity ≡ s.avail_capacity)
          × ((suc (buffered s'.links) ≡ buffered s.links)
              ⊎ ((buffered s'.links ≡ buffered s.links)
                  × (s'.sel_cap ≡ f.add s.sel_cap (y.cap id))
                  × (ge s'.sel_cap rnd_num ≡ false)))
    unfolding release_one
    release_one_total id rnd_num clock now {time} s clocked src (l, x, b, found, front) h =
        let (l₁, pops, popped) =
          pop_veh_total l ((h.moving.laid.placed id l found).flow src) front in
        let flow = (h.moving.laid.placed id l found).flow src in
        let sel = f.add s.sel_cap (y.cap id) in
        let grown =
          laws.le_trans (f.lit 0 0) s.sel_cap sel h.sel
            (laws.add_grows s.sel_cap (y.cap id) h.sel (caps id src)) in
        let s₁ : Flow F V = record s { sel_cap = sel } in
        let h₁ : IsFlowing s₁ = record { moving = h.moving; avail = h.avail; sel = grown } in
        let (s', moves, flowing, avail, _, fewer) =
          move_vehicle_total id l l₁ x b clock now time s₁ clocked src found front popped h₁ in
        elim (Bool-cases (ge sel rnd_num)) [
          | inl go ↦ (s', ground (arith, found, flow, go, pops, moves), flowing, avail, inl fewer)
          | inr not_yet ↦
              (s₁, ground (arith, found, flow, not_yet), h₁, refl, inr (refl, refl, not_yet))
        ]

    exhaust_total :
        (id : ℕ) (s : Flow F V)
        → y.source id ≡ true
        → IsFlowing s
        → (exhaust id s ≡ some (record s { avail_capacity = f.sub s.avail_capacity (y.cap id) }))
          × Le (f.sub s.avail_capacity (y.cap id)) s.avail_capacity
          × IsFlowing (record s { avail_capacity = f.sub s.avail_capacity (y.cap id) })
    unfolding exhaust
    exhaust_total id s src h =
        let (l, found) = source_stored y id s.links src h.moving.laid in
        let flow = (h.moving.laid.placed id l found).flow src in
        let less = laws.sub_le s.avail_capacity (y.cap id) h.avail (caps id src) in
        (
          ground (arith, found, flow),
          less,
          record {
            moving = h.moving;
            avail = laws.le_trans _ s.avail_capacity laws.top less h.avail;
            sel = h.sel;
          },
        )

    -- What a visit of a link does: it exhausts the link, moves a vehicle, or leaves all as it is but for the selected capacity.
    pub data IsVisited (id : ℕ) (rnd_num : F) (s s' : Flow F V) : Bool → Type 0 where
      exhausts :
          Le s'.avail_capacity s.avail_capacity
          → buffered s'.links ≡ buffered s.links
          → IsVisited id rnd_num s s' true
      moves :
          s'.avail_capacity ≡ s.avail_capacity
          → suc (buffered s'.links) ≡ buffered s.links
          → IsVisited id rnd_num s s' false
      passes :
          s'.avail_capacity ≡ s.avail_capacity
          → buffered s'.links ≡ buffered s.links
          → s'.sel_cap ≡ f.add s.sel_cap (y.cap id)
          → ge s'.sel_cap rnd_num ≡ false
          → IsVisited id rnd_num s s' false

    pub visit_total :
        (id : ℕ) (rnd_num : F) (clock : SimClock) (now : Tick) {time : SimTime} (s : Flow F V)
        → tick_to_time clock now ≡ some time
        → y.source id ≡ true
        → IsFlowing s
        → (b : Bool) × (s' : Flow F V) × (visit id rnd_num clock now s ≡ some ((id, b), s'))
          × IsFlowing s'
          × IsVisited id rnd_num s s' b
    unfolding visit
    visit_total id rnd_num clock now s clocked src h =
        let (b, m, asked, moving, same, front) =
          should_total y count id now s.links s.active_links src h.moving in
        let s₁ : Flow F V = record s { links = m } in
        let h₁ : IsFlowing s₁ = record { moving = moving; avail = h.avail; sel = h.sel } in
        elim (Bool-cases b) [
          | inl may ↦ elim front [
            | inl stays ↦ absurd (ground (arith, may, stays))
            | inr offered ↦
                let (s', released, flowing, avail, outcome) =
                  release_one_total id rnd_num clock now s₁ clocked src offered h₁ in
                (
                  false,
                  s',
                  ground (arith, asked, may, released),
                  flowing,
                  elim outcome [
                    | inl fewer ↦ moves avail (fewer ∙ same)
                    | inr (kept, sel, short) ↦ passes avail (kept ∙ same) sel short
                  ],
                )
          ]
          | inr stays ↦
              let (done, less, flowing) = exhaust_total id s₁ src h₁ in
              (
                true,
                record s₁ { avail_capacity = f.sub s.avail_capacity (y.cap id) },
                ground (arith, asked, stays, done),
                flowing,
                exhausts less same,
              )
        ]
