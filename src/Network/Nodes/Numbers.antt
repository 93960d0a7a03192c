-- ===== src/Network/Nodes/Numbers.antt =====
-- rust_qsim/src/simulation/network/sim_network.rs: the laws of `f64` and of the generator of random numbers that the
-- loop of a node rests on.
use parallel_qsim_rust.Prelude.{ℕ, ◌≡◌, ◌<◌, ◌≤◌, true, false}
use parallel_qsim_rust.Float.{F64, gt}
use parallel_qsim_rust.Network.Nodes.{Rng, ge}

module _ {F : Type 0} ⦃f : F64 F⦄ where
  -- `a <= b`, which does not hold of NaN.
  abbrev pub Le : F → F → Type 0
  Le a b = ge b a ≡ true

module _ (F : Type 0) ⦃f : F64 F⦄ where
  -- Sums of flow capacities stay up to `top`, a finite number below which a millionth is not lost to rounding; `steps`
  -- counts the numbers above the bound of the loop. Rounding keeps the order. The laws hold of `f64` with its infinities and
  -- NaN: NaN is at neither side of `Le`, no sum of numbers from 0 on is NaN, and a product with a number up to `top` is not.
  pub record FlowLaws : Type 0 where
    pub top : F
    pub steps : F → ℕ
    pub le_trans : (a b c : F) → Le a b → Le b c → Le a c
    pub top_le : Le top top
    pub zero_le : Le (f.lit 0 0) (f.lit 0 0)
    pub tiny_le : Le (f.lit 0 0) (f.lit 1 6)
    pub zero_small : gt (f.lit 0 0) (f.lit 1 10) ≡ false
    pub add_mono :
        (a b c : F) → Le (f.lit 0 0) a → Le a b → Le (f.lit 0 0) c → Le (f.add a c) (f.add b c)
    pub add_grows : (a c : F) → Le (f.lit 0 0) a → Le (f.lit 0 0) c → Le a (f.add a c)
    pub sub_le : (a c : F) → Le a top → Le (f.lit 0 0) c → Le (f.sub a c) a
    pub mul_le :
        (x a : F)
        → Le (f.lit 0 0) x
        → Le x (f.lit 1 0)
        → Le (f.lit 0 0) a
        → Le a top
        → Le (f.mul x a) a
    pub steps_mono : (a b : F) → Le a b → Le b top → steps a ≤ steps b
    pub steps_drop :
        (a : F) → gt a (f.lit 1 10) ≡ true → Le a top → steps (f.sub a (f.lit 1 6)) < steps a

module _ (F R : Type 0) ⦃f : F64 F⦄ ⦃r : Rng F R⦄ where
  -- Random numbers lie between 0 and 1.
  abbrev pub IsUnit : Type 0
  IsUnit = (g : R) → Le (f.lit 0 0) (r.random g).0 × Le (r.random g).0 (f.lit 1 0)
