-- ===== src/Network/Tests/SpecialNumbers.antt =====
-- The laws that the proofs about rust_qsim/src/simulation/network/ ask of numbers, on numbers with an infinity and NaN.
-- A finite number is one of millionths, a difference stops at 0, zero times infinity and the difference of two infinities
-- are NaN, and NaN compares with nothing.
use native.Mathlib.Nat.{mul-le-mul_right}
use parallel_qsim_rust.Prelude.{
  ℕ, zero, suc, ◌+◌, ◌-◌, ◌*◌, ◌/◌, ◌^◌, ◌≤◌, ◌<◌, ◌≡◌, refl, Bool, true, false, ltb, ◌==◌,
  if◌then◌else◌, arith,
}
use parallel_qsim_rust.Float.{F64, gt}
use parallel_qsim_rust.Network.Capacity.History.{CapLaws}
use parallel_qsim_rust.Network.Nodes.Numbers.{FlowLaws, Le}

data Special : Type 0 where
  fin : ℕ → Special
  inf nan : Special

abbrev add : Special → Special → Special
add (fin a) (fin b) = fin (a + b)
add (fin a) inf = inf
add (fin a) nan = nan
add inf (fin b) = inf
add inf inf = inf
add inf nan = nan
add nan b = nan

abbrev sub : Special → Special → Special
sub (fin a) (fin b) = fin (a - b)
sub (fin a) inf = fin 0
sub (fin a) nan = nan
sub inf (fin b) = inf
sub inf inf = nan
sub inf nan = nan
sub nan b = nan

abbrev times_inf : ℕ → Special
times_inf zero = nan
times_inf (suc a) = inf

abbrev mul : Special → Special → Special
mul (fin a) (fin b) = fin (a * b / 1_000_000)
mul (fin a) inf = times_inf a
mul (fin a) nan = nan
mul inf (fin b) = times_inf b
mul inf inf = inf
mul inf nan = nan
mul nan b = nan

abbrev less : Special → Special → Bool
less (fin a) (fin b) = ltb a b
less (fin a) inf = true
less (fin a) nan = false
less inf b = false
less nan b = false

abbrev same : Special → Special → Bool
same (fin a) (fin b) = a == b
same (fin a) inf = false
same (fin a) nan = false
same inf (fin b) = false
same inf inf = true
same inf nan = false
same nan b = false

-- The other number, where one is NaN.
abbrev least : Special → Special → Special
least (fin a) (fin b) = if ltb b a then fin b else fin a
least (fin a) inf = fin a
least (fin a) nan = fin a
least inf b = if same b b then b else inf
least nan b = b

instance abbrev specials : F64 Special
specials = record {
  lit = λ m e. fin (m * 1_000_000 / 10 ^ e);
  add = add;
  sub = sub;
  mul = mul;
  div = λ a b. a;
  neg = λ a. fin 0;
  fmin = least;
  fmax = λ a b. a;
  lt = less;
  eq = same;
  of_u64 = λ n. fin (n * 1_000_000);
  floor_u64 = λ a. 0;
  as_secs = λ nanos. fin (nanos / 1_000);
  from_secs = λ s. 0;
}

special_irrefl : (a : Special) → less a a ≡ false
special_irrefl (fin a) = ground arith
special_irrefl inf = refl
special_irrefl nan = refl

special_min_le : (a b : Special) → less b (least a b) ≡ false
special_min_le (fin a) (fin b) = ground arith
special_min_le (fin a) inf = refl
special_min_le (fin a) nan = refl
special_min_le inf (fin b) = ground arith
special_min_le inf inf = refl
special_min_le inf nan = refl
special_min_le nan (fin b) = ground arith
special_min_le nan inf = refl
special_min_le nan nan = refl

special_sub_bound :
    (a by top : Special)
    → less top a ≡ false
    → less by (fin 0) ≡ false
    → less top (sub a by) ≡ false
special_sub_bound a by nan p q = refl
special_sub_bound a by inf p q = refl
special_sub_bound (fin a) (fin b) (fin t) p q = ground arith
special_sub_bound (fin a) inf (fin t) p q = ground arith
special_sub_bound (fin a) nan (fin t) p q = refl
special_sub_bound inf by (fin t) p q = cc
special_sub_bound nan by (fin t) p q = refl

abbrev special_cap_laws : CapLaws Special
special_cap_laws = record {
  lt_irrefl = special_irrefl;
  min_le = special_min_le;
  sub_le = special_sub_bound;
}

mul_le_one : (x a : ℕ) → x ≤ 1_000_000 → x * a / 1_000_000 ≤ a
mul_le_one x a h = omega (arith, mul-le-mul_right a h)

special_trans : (a b c : Special) → Le a b → Le b c → Le a c
special_trans (fin a) (fin b) (fin c) p q = ground arith
special_trans (fin a) (fin b) inf p q = refl
special_trans (fin a) (fin b) nan p q = cc
special_trans (fin a) inf (fin c) p q = cc
special_trans (fin a) inf inf p q = refl
special_trans (fin a) inf nan p q = cc
special_trans (fin a) nan c p q = cc
special_trans inf (fin b) c p q = cc
special_trans inf inf c p q = q
special_trans inf nan c p q = cc
special_trans nan (fin b) c p q = cc
special_trans nan inf c p q = cc
special_trans nan nan c p q = cc

special_add_mono : (a b c : Special) → Le (fin 0) a → Le a b → Le (fin 0) c → Le (add a c) (add b c)
special_add_mono (fin a) (fin b) (fin c) p q r = ground arith
special_add_mono (fin a) inf (fin c) p q r = refl
special_add_mono (fin a) nan c p q r = cc
special_add_mono (fin a) (fin b) inf p q r = refl
special_add_mono (fin a) inf inf p q r = refl
special_add_mono (fin a) b nan p q r = cc
special_add_mono inf (fin b) c p q r = cc
special_add_mono inf nan c p q r = cc
special_add_mono inf inf (fin c) p q r = refl
special_add_mono inf inf inf p q r = refl
special_add_mono inf inf nan p q r = cc
special_add_mono nan b c p q r = cc

special_add_grows : (a c : Special) → Le (fin 0) a → Le (fin 0) c → Le a (add a c)
special_add_grows (fin a) (fin c) p q = ground arith
special_add_grows (fin a) inf p q = refl
special_add_grows (fin a) nan p q = cc
special_add_grows inf (fin c) p q = refl
special_add_grows inf inf p q = refl
special_add_grows inf nan p q = cc
special_add_grows nan c p q = cc

special_sub_le : (a c : Special) → Le a (fin 1_000) → Le (fin 0) c → Le (sub a c) a
special_sub_le (fin a) (fin c) p q = ground arith
special_sub_le (fin a) inf p q = ground arith
special_sub_le (fin a) nan p q = cc
special_sub_le inf c p q = cc
special_sub_le nan c p q = cc

special_mul_le :
    (x a : Special)
    → Le (fin 0) x
    → Le x (fin 1_000_000)
    → Le (fin 0) a
    → Le a (fin 1_000)
    → Le (mul x a) a
special_mul_le (fin x) (fin a) p q r t = ground (arith, mul_le_one x a)
special_mul_le (fin x) inf p q r t = cc
special_mul_le (fin x) nan p q r t = cc
special_mul_le inf a p q r t = cc
special_mul_le nan a p q r t = cc

abbrev finite_part : Special → ℕ
finite_part (fin a) = a
finite_part inf = 0
finite_part nan = 0

special_steps_mono : (a b : Special) → Le a b → Le b (fin 1_000) → finite_part a ≤ finite_part b
special_steps_mono (fin a) (fin b) p q = ground arith
special_steps_mono (fin a) inf p q = cc
special_steps_mono (fin a) nan p q = cc
special_steps_mono inf b p q = omega arith
special_steps_mono nan b p q = omega arith

special_steps_drop :
    (a : Special)
    → gt a (fin 0) ≡ true
    → Le a (fin 1_000)
    → finite_part (sub a (fin 1)) < finite_part a
special_steps_drop (fin a) p q = ground arith
special_steps_drop inf p q = cc
special_steps_drop nan p q = cc

abbrev special_laws : FlowLaws Special
special_laws = record {
  top = fin 1_000;
  steps = finite_part;
  le_trans = special_trans;
  top_le = refl;
  zero_le = refl;
  tiny_le = refl;
  zero_small = refl;
  add_mono = special_add_mono;
  add_grows = special_add_grows;
  sub_le = special_sub_le;
  mul_le = special_mul_le;
  steps_mono = special_steps_mono;
  steps_drop = special_steps_drop;
}
