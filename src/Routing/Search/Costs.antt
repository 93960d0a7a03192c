-- ===== src/Routing/Search/Costs.antt =====
-- What the search needs of `f64` beyond Float, and the laws of `f64` for numbers that are not negative.
use parallel_qsim_rust.Prelude.{◌≡◌, Bool, true, false}
use parallel_qsim_rust.Float.{F64}

pub record Extremes (F : Type 0) : Type 0 where
  pub infinity : F
  pub is_nan : F → Bool
  pub is_finite : F → Bool

abbrev pub zero_cost : {F : Type 0} → F64 F → F
zero_cost f = f.lit 0 0

-- A number that is not negative, infinity included.
abbrev pub IsCost : {F : Type 0} → F64 F → Extremes F → F → Type 0
IsCost f e x = (e.is_nan x ≡ false) × (f.lt x (zero_cost f) ≡ false)

-- `a ≤ b`, for numbers.
abbrev pub Le : {F : Type 0} → F64 F → F → F → Type 0
Le f a b = f.lt b a ≡ false

-- Sums are rounded, so only their order is kept.
pub record CostLaws (F : Type 0) (f : F64 F) (e : Extremes F) : Type 0 where
  pub zero_IsCost : IsCost f e (zero_cost f)
  pub infinity_IsCost : IsCost f e e.infinity
  pub add_IsCost : (a w : F) → IsCost f e a → IsCost f e w → IsCost f e (f.add a w)
  pub lt_asym : (a b : F) → f.lt a b ≡ true → Le f a b
  pub le_refl : (a : F) → Le f a a
  pub le_trans :
      (a b c : F) → IsCost f e a → IsCost f e b → IsCost f e c → Le f a b → Le f b c → Le f a c
  pub le_infinity : (a : F) → IsCost f e a → Le f a e.infinity
  pub eq_infinity : (a : F) → IsCost f e a → f.eq a e.infinity ≡ true → Le f e.infinity a
  pub infinity_eq : f.eq e.infinity e.infinity ≡ true
  pub le-add : (a w : F) → IsCost f e a → IsCost f e w → Le f a (f.add a w)
  pub add_mono :
      (a b w : F)
      → IsCost f e a
      → IsCost f e b
      → IsCost f e w
      → Le f a b
      → Le f (f.add a w) (f.add b w)
  pub add_zero_le : (a : F) → IsCost f e a → Le f (f.add a (zero_cost f)) a
