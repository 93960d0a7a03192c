-- ===== src/Network/Nodes/Rounds.antt =====
-- rust_qsim/src/simulation/network/sim_network.rs: the loop of a node ends.
use parallel_qsim_rust.Prelude.{
  ℕ, zero, suc, ◌<◌, ◌≡◌, sym, ap, ◌∙◌, subst, Bool, true, some, List, [], ◌∷◌, arith, inl, inr,
  Bool-cases,
}
use parallel_qsim_rust.Time.{Tick, SimTime, SimClock, tick_to_time}
use parallel_qsim_rust.Float.{F64, gt, Vehicle}
use parallel_qsim_rust.Network.Nodes.{Rng, ok, Flow, Entry, ge, rounds}
use parallel_qsim_rust.Network.Nodes.Numbers.{Le, FlowLaws, IsUnit}
use parallel_qsim_rust.Network.Nodes.Layout.{Layout}
use parallel_qsim_rust.Network.Nodes.Visiting.{IsFlowing}
use parallel_qsim_rust.Network.Nodes.Sweeping.{
  IsFresh, AreSources, add_all, weight, IsStalled, sweep_total,
}

module _ {F : Type 0} ⦃f : F64 F⦄ (y : Layout F)
    (caps : (k : ℕ) → y.source k ≡ true → Le (f.lit 0 0) (y.cap k)) (laws : FlowLaws F) where
  pub add_all_mono :
      (es : List Entry) (a b : F)
      → AreSources y es
      → Le (f.lit 0 0) a
      → Le a b
      → Le (add_all y a es) (add_all y b es)
  add_all_mono [] a b _ pos le = le
  add_all_mono (e ∷ es) a b (src, srcs) pos le =
      let c = caps e.0 src in
      add_all_mono es (f.add a (y.cap e.0)) (f.add b (y.cap e.0)) srcs
        (laws.le_trans (f.lit 0 0) a _ pos (laws.add_grows a (y.cap e.0) pos c))
        (laws.add_mono a b (y.cap e.0) pos le c)

  pub add_all_grows :
      (es : List Entry) (a : F)
      → AreSources y es
      → Le (f.lit 0 0) a
      → Le (f.lit 0 0) (add_all y a es)
  add_all_grows [] a _ pos = pos
  add_all_grows (e ∷ es) a (src, srcs) pos =
      add_all_grows es (f.add a (y.cap e.0)) srcs
        (laws.le_trans (f.lit 0 0) a _ pos (laws.add_grows a (y.cap e.0) pos (caps e.0 src)))

module _ {F V : Type 0} ⦃f : F64 F⦄ ⦃v : Vehicle F V⦄ (y : Layout F) (count : (ℕ → Bool) → ℕ)
    (caps : (k : ℕ) → y.source k ≡ true → Le (f.lit 0 0) (y.cap k)) (laws : FlowLaws F) where
  -- As long as no link is exhausted, the selected capacity behind a round is at least the available one.
  not_stalled :
      (x : F) (es : List Entry) (s s' : Flow F V)
      → Le (f.lit 0 0) x
      → Le x (f.lit 1 0)
      → AreSources y es
      → IsFlowing y count caps laws s
      → s.avail_capacity ≡ add_all y (f.lit 0 0) es
      → gt s.avail_capacity (f.lit 1 10) ≡ true
      → IsStalled y count caps laws (f.mul x s.avail_capacity) es s s'
      → ⊥
  not_stalled x es s s' pos unit srcs h sum more stalled =
      let total = add_all y (f.lit 0 0) es in
      let grown = add_all_grows y caps laws es (f.lit 0 0) srcs laws.zero_le in
      let below = subst (λ a. Le a laws.top) sum h.avail in
      let drawn = laws.mul_le x total pos unit grown below in
      let all = add_all_mono y caps laws es (f.lit 0 0) s.sel_cap srcs laws.zero_le h.sel in
      let reached = laws.le_trans (f.mul x total) total _ drawn all in
      elim stalled.short [
        | inl none_left ↦
            let empty : s.avail_capacity ≡ f.lit 0 0 = sum ∙ ap (add_all y (f.lit 0 0)) none_left in
            absurd
              (ground (arith, subst (λ a. gt a (f.lit 1 10) ≡ true) empty more, laws.zero_small))
        | inr short ↦
            let e : ge s'.sel_cap (f.mul x s.avail_capacity)
                ≡ ge (add_all y s.sel_cap es) (f.mul x total) =
              ap (λ a. ge a (f.mul x s.avail_capacity)) stalled.sel
              ∙ ap (λ a. ge (add_all y s.sel_cap es) (f.mul x a)) sum in
            absurd (cc)
      ]

module _ {F V R : Type 0} ⦃f : F64 F⦄ ⦃v : Vehicle F V⦄ ⦃r : Rng F R⦄ (y : Layout F)
    (count : (ℕ → Bool) → ℕ) (caps : (k : ℕ) → y.source k ≡ true → Le (f.lit 0 0) (y.cap k))
    (laws : FlowLaws F) (unit : IsUnit F R) where
  -- The loop ends within as many rounds as the weight says, and keeps what holds of its variables.
  pub rounds_total :
      (n : ℕ) (clock : SimClock) (now : Tick) {time : SimTime} (es : List Entry) (g : R)
      (s : Flow F V)
      → tick_to_time clock now ≡ some time
      → AreSources y es
      → IsFlowing y count caps laws s
      → (IsFresh es → s.avail_capacity ≡ add_all y (f.lit 0 0) es)
      → weight y count caps laws es s < n
      → (g' : R) × (s' : Flow F V) × (rounds n clock now es g s ≡ ok (g', s'))
        × IsFlowing y count caps laws s'
  unfolding rounds
  rounds_total zero clock now es g s clocked srcs h sum enough = absurd (omega arith)
  rounds_total (suc n) clock now es g s clocked srcs h sum enough =
      let x = (r.random g).0 in
      let g₁ = (r.random g).1 in
      let (es', s', done, w) =
        sweep_total y count caps laws es (f.mul x s.avail_capacity) clock now s clocked srcs h in
      elim (Bool-cases (gt s.avail_capacity (f.lit 1 10))) [
        | inr low ↦ (g, s, ground (arith, low), h)
        | inl more ↦ elim w.progress [
          | inl lighter ↦
              let less = lighter more in
              let (g', t, rest, flowing) =
                rounds_total n clock now es' g₁ s' clocked w.sources w.flowing
                  (λ p.
                    let (before, e) = w.fresh p in e ∙ sum before ∙ sym (w.caps_kept (f.lit 0 0)))
                  (omega (arith, less, enough)) in
              (g', t, ground (arith, more, done, rest), flowing)
          | inr (stalled, _) ↦ absurd (
              not_stalled y count caps laws x es s s' (unit g).0 (unit g).1 srcs h
                (sum stalled.fresh) more stalled)
        ]
      ]
