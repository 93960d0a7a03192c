-- ===== src/Network/Link/Serving.antt =====
-- rust_qsim/src/simulation/network/link.rs: vehicles that are offered at the front of the buffer and popped, one after
-- the other, as `move_intersection` of sim_network.rs does as long as there is room.
use parallel_qsim_rust.Prelude.{
  ℕ, zero, suc, ◌≡◌, ◌⊎◌, ◌∙◌, refl, sym, ap, subst, inl, inr, Bool-cases, true, false, Option,
  none, some, List, [], ◌∷◌, ◌++◌, map, length,
}
use parallel_qsim_rust.Time.{Tick}
use parallel_qsim_rust.Float.{F64, gt, Vehicle}
use parallel_qsim_rust.Network.Capacity.{has_capacity_left, consume_flow}
use parallel_qsim_rust.Network.StuckTimer
use parallel_qsim_rust.Network.StuckTimer.{StuckTimer}
use parallel_qsim_rust.Network.LinkState.{LocalLink}
use parallel_qsim_rust.Network.Link

-- A timer that was reset by the last pop, or that nothing has touched.
abbrev pub timer_after : {V : Type 0} → List V → StuckTimer → StuckTimer
timer_after [] timer = timer
timer_after (x ∷ xs) timer = record timer { timer_started = none }

timer_twice :
    {V : Type 0} (x : V) (xs : List V) (timer : StuckTimer)
    → timer_after xs (record timer { timer_started = none }) ≡ timer_after (x ∷ xs) timer
timer_twice x [] timer = refl
timer_twice x (y ∷ xs) timer = refl

module _ {F V : Type 0} ⦃f : F64 F⦄ ⦃v : Vehicle F V⦄ where
  -- A vehicle that is offered is popped, and `rest` goes on from there.
  abbrev pub after_offer :
      Option V × LocalLink F V
      → (LocalLink F V → List (V × Option V) × LocalLink F V)
      → List (V × Option V) × LocalLink F V
  after_offer (none, l) rest = ([], l)
  after_offer (some x, l) rest =
      let popped = Link.pop_veh l in let r = rest popped.1 in ((x, popped.0) ∷ r.0, r.1)

  -- Up to `n` vehicles are popped as long as one is offered: each with what the pop then returns, and the link.
  unfoldable pub serve : ℕ → Tick → LocalLink F V → List (V × Option V) × LocalLink F V
  serve zero now l = ([], l)
  serve (suc n) now l = after_offer (Link.offers_veh now l) (serve n now)

  -- What is left of a flow capacity behind the vehicles.
  abbrev pub left_after : F → List V → F
  left_after remaining [] = remaining
  left_after remaining (x ∷ xs) = left_after (f.sub remaining (v.pce x)) xs

  -- Every one of the vehicles finds more than 10^-10 left behind those before it.
  abbrev pub AreCovered : F → List V → Type 0
  AreCovered remaining [] = Unit
  AreCovered remaining (x ∷ xs) =
      (gt remaining (f.lit 1 10) ≡ true) × AreCovered (f.sub remaining (v.pce x)) xs

  pub record IsServed (n : ℕ) (l : LocalLink F V) (r : List (V × Option V) × LocalLink F V)
      : Type 0 where
    pub served : List V
    pub kept : List V
    pub offered : r.0 ≡ map (λ x. (x, some x)) served
    pub split : l.buffer ≡ served ++ kept
    pub covered : AreCovered l.flow_cap.remaining_capacity served
    pub link : r.1 ≡ record l {
      buffer = kept;
      flow_cap = record l.flow_cap {
        remaining_capacity = left_after l.flow_cap.remaining_capacity served;
      };
      stuck_timer = timer_after served l.stuck_timer;
    }
    pub stops :
        (length served ≡ n)
        ⊎ (kept ≡ [])
        ⊎ (gt (left_after l.flow_cap.remaining_capacity served) (f.lit 1 10) ≡ false)

  offered_front :
      (now : Tick) (x : V) (b : List V) (l : LocalLink F V)
      → gt l.flow_cap.remaining_capacity (f.lit 1 10) ≡ true
      → Link.offers_veh now (record l { buffer = x ∷ b })
        ≡ (some x, record l { buffer = x ∷ b; stuck_timer = StuckTimer.start now l.stuck_timer })
  unfolding Link.offers_veh has_capacity_left
  offered_front now x b l room = rw room refl

  offered_none :
      (now : Tick) (x : V) (b : List V) (l : LocalLink F V)
      → gt l.flow_cap.remaining_capacity (f.lit 1 10) ≡ false
      → Link.offers_veh now (record l { buffer = x ∷ b }) ≡ (none, record l { buffer = x ∷ b })
  unfolding Link.offers_veh has_capacity_left
  offered_none now x b l full = rw full refl

  serve_from :
      (n : ℕ) (now : Tick) (b : List V) (l : LocalLink F V)
      → IsServed n (record l { buffer = b }) (serve n now (record l { buffer = b }))
  unfolding serve Link.offers_veh Link.pop_veh consume_flow StuckTimer.start StuckTimer.reset
  serve_from zero now b l = record {
    served = [];
    kept = b;
    offered = refl;
    split = refl;
    covered = tt;
    link = refl;
    stops = inl refl;
  }
  serve_from (suc n) now [] l = record {
    served = [];
    kept = [];
    offered = refl;
    split = refl;
    covered = tt;
    link = refl;
    stops = inr (inl refl);
  }
  serve_from (suc n) now (x ∷ b) l =
      elim (Bool-cases (gt l.flow_cap.remaining_capacity (f.lit 1 10))) [
        | inl room ↦
            let next = serve_from n now b (record l {
              flow_cap = consume_flow (v.pce x) l.flow_cap;
              stuck_timer = record l.stuck_timer { timer_started = none };
            }) in
            subst
              (λ o. IsServed (suc n) (record l { buffer = x ∷ b }) (after_offer o (serve n now)))
              (sym (offered_front now x b l room))
              (record {
                served = x ∷ next.served;
                kept = next.kept;
                offered = ap (λ r. (x, some x) ∷ r) next.offered;
                split = ap (λ r. x ∷ r) next.split;
                covered = (room, next.covered);
                link =
                    next.link
                    ∙ ap
                        (λ timer. record l {
                          buffer = next.kept;
                          flow_cap = record l.flow_cap {
                            remaining_capacity =
                                left_after (f.sub l.flow_cap.remaining_capacity (v.pce x))
                                  next.served;
                          };
                          stuck_timer = timer;
                        })
                        (timer_twice x next.served l.stuck_timer);
                stops = elim next.stops [ inl all ↦ inl (ap suc all) | inr rest ↦ inr rest ];
              })
        | inr full ↦
            subst
              (λ o. IsServed (suc n) (record l { buffer = x ∷ b }) (after_offer o (serve n now)))
              (sym (offered_none now x b l full))
              (record {
                served = [];
                kept = x ∷ b;
                offered = refl;
                split = refl;
                covered = tt;
                link = refl;
                stops = inr (inr full);
              })
      ]

  -- Up to `n` vehicles that are offered and popped are those at the front of the buffer, in order, and a pop returns what
  -- was offered. Each uses the flow capacity that its size needs and is offered only if more than 10^-10 is left; the
  -- loop ends early only at an empty buffer or where no more than that is left. The stuck timer is reset if a vehicle
  -- leaves, and nothing else of the link changes.
  pub serve-IsServed : (n : ℕ) (now : Tick) (l : LocalLink F V) → IsServed n l (serve n now l)
  serve-IsServed n now l = serve_from n now l.buffer l
