-- ===== src/Scenario/RoadNetwork/Changes.antt =====
-- scenario/network.rs: what changing one node does to the whole, `nodes.get_mut(id).unwrap()` and what follows.
use parallel_qsim_rust.Prelude.{
  ℕ, ◌≡◌, ◌∙◌, refl, ap, Bool, true, false, ◌==◌, Bool-cases, Option-cases, inl, inr, if◌then◌else◌,
  Option, none, some, arith,
}
use parallel_qsim_rust.Prelude.Maps.{Map, get, put, get-put}
use parallel_qsim_rust.Scenario.RoadNetwork.{Node, change}

abbrev pub is_some : {A : Type 0} → Option A → Bool
is_some none = false
is_some (some a) = true

module _ {F : Type 0} where
  -- The same keys, and under `id` what `f` makes of the old node.
  pub record IsChanged (id : ℕ) (f : Node F → Node F) (old new : Map (Node F)) : Type 0 where
    pub same_keys : (x : ℕ) → is_some (get x new) ≡ is_some (get x old)
    pub before :
        (x : ℕ) (v : Node F)
        → get x new ≡ some v
        → (u : Node F) × (get x old ≡ some u) × (v ≡ (if id == x then f u else u))

  pub put-IsChanged :
      (id : ℕ) (f : Node F → Node F) (old : Map (Node F)) (a : Node F)
      → get id old ≡ some a
      → IsChanged id f old (put id (f a) old)
  put-IsChanged id f old a e = record {
    same_keys = λ x. elim (Bool-cases (id == x)) [
      | inl same ↦ let at_x : id ≡ x = ground arith in ground (arith, get-put id x (f a) old)
      | inr other ↦ ap is_some (get-put id x (f a) old ∙ rw other refl)
    ];
    before = λ x v now. elim (Bool-cases (id == x)) [
      | inl same ↦
          let at_x : id ≡ x = ground arith in
          (a, ground arith, ground (arith, get-put id x (f a) old))
      | inr other ↦ (v, ground (arith, get-put id x (f a) old), rw other refl)
    ];
  }

  pub stored_total :
      (id : ℕ) (m : Map (Node F)) → is_some (get id m) ≡ true → (a : Node F) × (get id m ≡ some a)
  stored_total id m held = elim (Option-cases (get id m)) [
    | inl nothing ↦ absurd (ground (arith, held, nothing))
    | inr (a, e) ↦ (a, e)
  ]

  pub change_total :
      (id : ℕ) (f : Node F → Node F) (old : Map (Node F))
      → is_some (get id old) ≡ true
      → (new : Map (Node F)) × (change id f old ≡ some new) × IsChanged id f old new
  unfolding change
  change_total id f old held =
      let (a, e) = stored_total id old held in
      (put id (f a) old, rw (e, change) refl, put-IsChanged id f old a e)
