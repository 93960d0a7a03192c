-- ===== src/Network/Nodes/Sweeping.antt =====
-- rust_qsim/src/simulation/network/sim_network.rs: a round over the incoming links of a node.
use parallel_qsim_rust.Prelude.{
  ℕ, suc, ◌+◌, ◌≤◌, ◌<◌, ◌≡◌, refl, sym, subst, ap, ◌∙◌, Bool, true, false, if◌then◌else◌, some,
  List, [], ◌∷◌, All, arith, inl, inr, ◌⊎◌,
}
use parallel_qsim_rust.Time.{Tick, SimTime, SimClock, tick_to_time}
use parallel_qsim_rust.Float.{F64, gt, Vehicle}
use parallel_qsim_rust.Network.Nodes.{Flow, Entry, ge, trickle, sweep}
use parallel_qsim_rust.Network.Nodes.Numbers.{Le, FlowLaws}
use parallel_qsim_rust.Network.Nodes.Layout.{Layout, buffered}
use parallel_qsim_rust.Network.Nodes.Visiting.{
  IsFlowing, IsVisited, exhausts, moves, passes, visit_total,
}

-- How many links are not exhausted.
abbrev pub open_links : List Entry → ℕ
open_links [] = 0
open_links ((id, b) ∷ es) = if b then open_links es else suc (open_links es)

abbrev pub IsFresh : List Entry → Type 0
IsFresh es = All (λ e. e.1 ≡ false) es

module _ {F : Type 0} (y : Layout F) where
  abbrev pub AreSources : List Entry → Type 0
  AreSources es = All (λ e. y.source e.0 ≡ true) es

module _ {F : Type 0} ⦃f : F64 F⦄ (y : Layout F) where
  -- The sum of the flow capacities, from the left.
  abbrev pub add_all : F → List Entry → F
  add_all a [] = a
  add_all a (e ∷ es) = add_all (f.add a (y.cap e.0)) es

module _ {F V : Type 0} ⦃f : F64 F⦄ ⦃v : Vehicle F V⦄ (y : Layout F) (count : (ℕ → Bool) → ℕ)
    (caps : (k : ℕ) → y.source k ≡ true → Le (f.lit 0 0) (y.cap k)) (laws : FlowLaws F) where
  -- What becomes less in every round.
  abbrev pub weight : List Entry → Flow F V → ℕ
  weight es s = open_links es + buffered s.links + laws.steps s.avail_capacity

  -- No link was exhausted and no vehicle moved.
  pub record IsStalled (rnd_num : F) (es : List Entry) (s s' : Flow F V) : Type 0 where
    pub fresh : IsFresh es
    pub sel : s'.sel_cap ≡ add_all y s.sel_cap es
    pub short : (es ≡ []) ⊎ (ge s'.sel_cap rnd_num ≡ false)

  pub record IsSwept (rnd_num : F) (es : List Entry) (s : Flow F V) (es' : List Entry)
      (s' : Flow F V) : Type 0 where
    pub flowing : IsFlowing y count caps laws s'
    pub sources : AreSources y es'
    pub caps_kept : (a : F) → add_all y a es' ≡ add_all y a es
    pub fresh : IsFresh es' → IsFresh es × (s'.avail_capacity ≡ s.avail_capacity)
    pub no_heavier : weight es' s' ≤ weight es s
    pub progress :
        (gt s.avail_capacity (f.lit 1 10) ≡ true → weight es' s' < weight es s)
        ⊎ (IsStalled rnd_num es s s' × (s'.avail_capacity ≡ s.avail_capacity))

  -- The round behind a visit.
  visit-IsSwept :
      (id : ℕ) (rnd_num : F) (s s₁ s₂ : Flow F V) (b : Bool) (es es' : List Entry)
      → y.source id ≡ true
      → IsFlowing y count caps laws s
      → IsVisited y count caps laws id rnd_num s s₁ b
      → IsSwept rnd_num es s₁ es' s₂
      → IsSwept rnd_num ((id, false) ∷ es) s ((id, b) ∷ es') s₂
  visit-IsSwept id rnd_num s s₁ s₂ b es es' src h (exhausts less same) w =
      let fewer = laws.steps_mono s₁.avail_capacity s.avail_capacity less h.avail in
      record {
        flowing = w.flowing;
        sources = (src, w.sources);
        caps_kept = λ a. w.caps_kept _;
        fresh = λ p. cc;
        no_heavier = omega (arith, w.no_heavier, fewer, same);
        progress = inl (λ _. omega (arith, w.no_heavier, fewer, same));
      }
  visit-IsSwept id rnd_num s s₁ s₂ b es es' src h (moves avail same) w = record {
    flowing = w.flowing;
    sources = (src, w.sources);
    caps_kept = λ a. w.caps_kept _;
    fresh = λ p. let (rest, e) = w.fresh (p.1) in ((refl, rest), e ∙ avail);
    no_heavier = omega (arith, w.no_heavier, ap laws.steps avail, same);
    progress = inl (λ _. omega (arith, w.no_heavier, ap laws.steps avail, same));
  }
  visit-IsSwept id rnd_num s s₁ s₂ b es es' src h (passes avail same sel short) w = record {
    flowing = w.flowing;
    sources = (src, w.sources);
    caps_kept = λ a. w.caps_kept _;
    fresh = λ p. let (rest, e) = w.fresh (p.1) in ((refl, rest), e ∙ avail);
    no_heavier = omega (arith, w.no_heavier, ap laws.steps avail, same);
    progress = elim w.progress [
      | inl lighter ↦
          inl (λ more. omega (arith, lighter (rw avail more), ap laws.steps avail, same))
      | inr (stalled, e) ↦ inr (
        record {
          fresh = (refl, stalled.fresh);
          sel = stalled.sel ∙ ap (λ a. add_all y a es) sel;
          short = elim stalled.short [
            | inl none_left ↦ inr (
                subst (λ z. ge z rnd_num ≡ false)
                  (sym (stalled.sel ∙ ap (add_all y s₁.sel_cap) none_left)) short)
            | inr still ↦ inr still
          ];
        },
        e ∙ avail,
      )
    ];
  }

  -- A round over links from which vehicles may be moved returns. If it starts above the bound of the loop, the weight becomes less,
  -- or all links are passed.
  pub sweep_total :
      (es : List Entry) (rnd_num : F) (clock : SimClock) (now : Tick) {time : SimTime}
      (s : Flow F V)
      → tick_to_time clock now ≡ some time
      → AreSources y es
      → IsFlowing y count caps laws s
      → (es' : List Entry) × (s' : Flow F V) × (sweep es rnd_num clock now s ≡ some (es', s'))
        × IsSwept rnd_num es s es' s'
  unfolding sweep
  sweep_total [] rnd_num clock now s clocked _ h = (
    [],
    s,
    refl,
    record {
      flowing = h;
      sources = tt;
      caps_kept = λ a. refl;
      fresh = λ _. (tt, refl);
      no_heavier = omega arith;
      progress = inr (record { fresh = tt; sel = refl; short = inl refl }, refl);
    },
  )
  sweep_total ((id, true) ∷ es) rnd_num clock now s clocked (src, srcs) h =
      let less = laws.sub_le s.avail_capacity (f.lit 1 6) h.avail laws.tiny_le in
      let h₁ : IsFlowing y count caps laws (trickle s) = record {
        moving = h.moving;
        avail = laws.le_trans _ s.avail_capacity laws.top less h.avail;
        sel = h.sel;
      } in
      let (es', s', done, w) = sweep_total es rnd_num clock now (trickle s) clocked srcs h₁ in
      (
        (id, true) ∷ es',
        s',
        rw done refl,
        record {
          flowing = w.flowing;
          sources = (src, w.sources);
          caps_kept = λ a. w.caps_kept _;
          fresh = λ p. cc;
          no_heavier = omega (arith, w.no_heavier, laws.steps_mono _ s.avail_capacity less h.avail);
          progress =
              inl (λ more.
                omega (arith, w.no_heavier, laws.steps_drop s.avail_capacity more h.avail));
        },
      )
  sweep_total ((id, false) ∷ es) rnd_num clock now s clocked (src, srcs) h =
      let (b, s₁, visited, h₁, did) =
        visit_total y count caps laws id rnd_num clock now s clocked src h in
      let (es', s', done, w) = sweep_total es rnd_num clock now s₁ clocked srcs h₁ in
      (
        (id, b) ∷ es',
        s',
        rw visited (rw done refl),
        visit-IsSwept id rnd_num s s₁ s' b es es' src h did w,
      )
