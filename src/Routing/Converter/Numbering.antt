-- ===== src/Routing/Converter/Numbering.antt =====
-- The map from ids to their places, where no id stands twice.
use parallel_qsim_rust.Prelude.{
  ℕ, zero, suc, ◌+◌, ◌≡◌, ◌≢◌, ◌∙◌, ◌⊎◌, ◌==◌, inl, inr, Bool-cases, refl, ap, subst, some, List,
  [], ◌∷◌, get_elem?, arith,
}
use parallel_qsim_rust.Prelude.Maps.{Map, get, put, get-put}
use parallel_qsim_rust.Routing.Converter.{number_all}

abbrev pub AreDistinct : List ℕ → Type 0
AreDistinct [] = Unit
AreDistinct (x ∷ xs) = ((k : ℕ) → get_elem? xs k ≢ some x) × AreDistinct xs

number_all-other :
    (i : ℕ) (ids : List ℕ) (m : Map ℕ) (x : ℕ)
    → ((k : ℕ) → get_elem? ids k ≢ some x)
    → get x (number_all i ids m) ≡ get x m
unfolding number_all
number_all-other i [] m x h = refl
number_all-other i (y ∷ ys) m x h =
    let other : y ≢ x = λ e. h 0 (ap some e) in
    number_all-other (suc i) ys (put y i m) x (λ k. h (suc k)) ∙ ground (arith, get-put y x i m)

pub number_all-place :
    (i : ℕ) (ids : List ℕ) (m : Map ℕ) (j x : ℕ)
    → AreDistinct ids
    → get_elem? ids j ≡ some x
    → get x (number_all i ids m) ≡ some (i + j)
unfolding number_all
number_all-place i [] m j x h e = cc
number_all-place i (y ∷ ys) m zero x (once, h) e =
    let same : y ≡ x = cc in
    number_all-other (suc i) ys (put y i m) x
      (subst (λ z. (k : ℕ) → get_elem? ys k ≢ some z) same once)
    ∙ ground (arith, get-put y x i m)
number_all-place i (y ∷ ys) m (suc j) x (once, h) e =
    let next : suc i + j ≡ i + suc j = omega arith in
    number_all-place (suc i) ys (put y i m) j x h e ∙ ap some next

-- What the map says of an id that was not in it is a place of the id.
pub number_all-back :
    (i : ℕ) (ids : List ℕ) (m : Map ℕ) (x p : ℕ)
    → get x (number_all i ids m) ≡ some p
    → (get x m ≡ some p) ⊎ ((j : ℕ) × (p ≡ i + j) × (get_elem? ids j ≡ some x))
unfolding number_all
number_all-back i [] m x p e = inl e
number_all-back i (y ∷ ys) m x p e = elim (number_all-back (suc i) ys (put y i m) x p e) [
  | inr (j, at, there) ↦ inr (suc j, omega (arith, at), there)
  | inl put_here ↦ elim (Bool-cases (y == x)) [
    | inl same ↦
        let at_x : y ≡ x = ground arith in inr (zero, ground (arith, get-put y x i m), ap some at_x)
    | inr other ↦ inl (ground (arith, get-put y x i m))
  ]
]
