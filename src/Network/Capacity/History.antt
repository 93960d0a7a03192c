-- ===== src/Network/Capacity/History.antt =====
-- rust_qsim/src/simulation/network/flow_cap.rs: what any sequence of updates and uses leaves of a flow capacity.
use parallel_qsim_rust.Prelude.{
  ◌≡◌, ◌∙◌, refl, sym, ap, Bool-cases, inl, inr, false, ltb, max, List, [], ◌∷◌, arith,
}
use parallel_qsim_rust.Time.{SimTime, duration_since}
use parallel_qsim_rust.Float.{F64}
use parallel_qsim_rust.Network.Capacity.{Flowcap, new_flowcap, update_capacity, consume_flow}

-- A call of `update_capacity` or of `consume_capacity`.
pub data FlowCall (F : Type 0) : Type 0 where
  updates : (now : SimTime) → FlowCall F
  uses : (by : F) → FlowCall F

-- The greatest of a time and the times of the updates.
abbrev pub latest : {F : Type 0} → SimTime → List (FlowCall F) → SimTime
latest t [] = t
latest t (updates now ∷ calls) = latest (max t now) calls
latest t (uses by ∷ calls) = latest t calls

module _ {F : Type 0} ⦃f : F64 F⦄ where
  abbrev pub AreUses : List (FlowCall F) → Type 0
  AreUses [] = Unit
  AreUses (updates now ∷ calls) = AreUses calls
  AreUses (uses by ∷ calls) = (f.lt by (f.lit 0 0) ≡ false) × AreUses calls

  unfoldable pub run_flow : List (FlowCall F) → Flowcap F → Flowcap F
  unfolding update_capacity consume_flow
  run_flow [] c = c
  run_flow (updates now ∷ calls) c = run_flow calls (update_capacity now c)
  run_flow (uses by ∷ calls) c = run_flow calls (consume_flow by c)

  -- No more is left than for a tick, the capacity of a tick is as at first, and the last update was at `t`.
  pub record IsCapped (per_tick : F) (t : SimTime) (c : Flowcap F) : Type 0 where
    pub bound : f.lt per_tick c.remaining_capacity ≡ false
    pub constant : c.capacity_per_tick ≡ per_tick
    pub clock : c.last_update_time ≡ t

module _ (F : Type 0) ⦃f : F64 F⦄ where
  -- Of `f64`, NaN and the infinities included: a number is not less than itself, the minimum is no greater than the
  -- second number, and to subtract what is not negative does not pass a bound.
  pub record CapLaws : Type 0 where
    pub lt_irrefl : (a : F) → f.lt a a ≡ false
    pub min_le : (a b : F) → f.lt b (f.fmin a b) ≡ false
    pub sub_le :
        (a by top : F)
        → f.lt top a ≡ false
        → f.lt by (f.lit 0 0) ≡ false
        → f.lt top (f.sub a by) ≡ false

module _ {F : Type 0} ⦃f : F64 F⦄ (laws : CapLaws F) where
  update-IsCapped :
      (now : SimTime) {per_tick : F} {t : SimTime} (c : Flowcap F)
      → IsCapped per_tick t c
      → IsCapped per_tick (max t now) (update_capacity now c)
  unfolding update_capacity
  update-IsCapped now {per_tick} {t} c h = elim (Bool-cases (ltb c.last_update_time now)) [
    | inl newer ↦
        let acc =
          f.add (f.mul (f.as_secs (duration_since now c.last_update_time)) c.capacity_per_second)
            c.remaining_capacity in
        rw newer (record {
          bound =
              ap (λ p. f.lt p (f.fmin acc c.capacity_per_tick)) (sym h.constant)
              ∙ laws.min_le acc c.capacity_per_tick;
          constant = h.constant;
          clock = ground (arith, h.clock);
        })
    | inr older ↦
        rw older
          (record { bound = h.bound; constant = h.constant; clock = ground (arith, h.clock) })
  ]

  run_flow_keeps :
      (calls : List (FlowCall F)) {per_tick : F} {t : SimTime} (c : Flowcap F)
      → AreUses calls
      → IsCapped per_tick t c
      → IsCapped per_tick (latest t calls) (run_flow calls c)
  unfolding run_flow consume_flow
  run_flow_keeps [] c amounts h = h
  run_flow_keeps (updates now ∷ calls) c amounts h =
      run_flow_keeps calls (update_capacity now c) amounts (update-IsCapped now c h)
  run_flow_keeps (uses by ∷ calls) c (positive, rest) h =
      run_flow_keeps calls (consume_flow by c) rest (record {
        bound = laws.sub_le c.remaining_capacity by _ h.bound positive;
        constant = h.constant;
        clock = h.clock;
      })

  -- A new flow capacity, after any sequence of updates, in any order of their times, and of uses of amounts that are
  -- not negative, never has more left than the capacity of a tick, which stays the same; its last update is the one at
  -- the greatest of the times.
  pub run_flow-IsCapped :
      (calls : List (FlowCall F)) (capacity_h sample_size per_tick : F)
      → AreUses calls
      → IsCapped per_tick
          (latest 0 calls)
          (run_flow calls (new_flowcap capacity_h sample_size per_tick))
  unfolding new_flowcap
  run_flow-IsCapped calls capacity_h sample_size per_tick amounts =
      run_flow_keeps calls (new_flowcap capacity_h sample_size per_tick) amounts
        (record { bound = laws.lt_irrefl per_tick; constant = refl; clock = refl })
