-- ===== src/Routing/Converter/Slices.antt =====
-- Compressed rows: the links of a node are those between two neighbours among the first places.
use parallel_qsim_rust.Prelude.{
  ℕ, zero, suc, ◌+◌, ◌-◌, ◌≡◌, ◌∙◌, refl, ap, subst, true, ◌&&◌, leb, some, List, [], ◌∷◌, ◌++◌,
  length, length-append, append_assoc, take, get_elem?, arith,
}
use parallel_qsim_rust.Routing.Graph.{drop, get_range, ok, row_bounds}

pub drop-length : {A : Type 0} (xs ys : List A) → drop (length xs) (xs ++ ys) ≡ ys
drop-length [] ys = refl
drop-length (x ∷ xs) ys = drop-length xs ys

pub take-length : {A : Type 0} (xs ys : List A) → take (length xs) (xs ++ ys) ≡ xs
take-length [] ys = refl
take-length (x ∷ xs) ys = ap (λ t. x ∷ t) (take-length xs ys)

-- The part between two others.
pub get_range-append :
    {A : Type 0} (xs ys zs : List A) (start end : ℕ)
    → start ≡ length xs
    → end ≡ length xs + length ys
    → get_range start end (xs ++ (ys ++ zs)) ≡ some ys
unfolding get_range
get_range-append xs ys zs start end p q =
    let size : length (xs ++ (ys ++ zs)) ≡ length xs + (length ys + length zs) =
      omega (arith, length-append {0} xs (ys ++ zs), length-append {0} ys zs) in
    let fits : (leb (length xs) (length xs + length ys)
          && leb (length xs + length ys) (length (xs ++ (ys ++ zs))))
        ≡ true =
      ground (arith, size) in
    let width : length xs + length ys - length xs ≡ length ys = omega arith in
    rw p (
      rw q (
        rw fits (
          rw width
            (ap some (ap (take (length ys)) (drop-length xs (ys ++ zs)) ∙ take-length ys zs)))))

abbrev pub concat : List (List ℕ) → List ℕ
concat [] = []
concat (r ∷ rs) = r ++ concat rs

-- Where each row starts, and where the last one ends.
abbrev pub starts : ℕ → List (List ℕ) → List ℕ
starts base [] = base ∷ []
starts base (r ∷ rs) = base ∷ starts (base + length r) rs

-- The bounds of row `j`, and what lies between them.
pub row_bounds-starts :
    (before : List ℕ) (rows : List (List ℕ)) (j : ℕ) (row : List ℕ)
    → get_elem? rows j ≡ some row
    → (start : ℕ) × (end : ℕ) × (row_bounds (starts (length before) rows) j ≡ ok (start, end))
      × (get_range start end (before ++ concat rows) ≡ some row)
unfolding row_bounds
row_bounds-starts before [] j row h = cc
row_bounds-starts before (r ∷ []) zero row h =
    let same : r ≡ row = cc in
    (
      length before,
      length before + length r,
      refl,
      get_range-append before r (concat []) (length before) (length before + length r) refl refl
          ∙ ap some same,
    )
row_bounds-starts before (r ∷ (r' ∷ rs)) zero row h =
    let same : r ≡ row = cc in
    (
      length before,
      length before + length r,
      refl,
      get_range-append before r (concat (r' ∷ rs)) (length before) (length before + length r) refl
            refl
          ∙ ap some same,
    )
row_bounds-starts before (r ∷ rs) (suc j) row h =
    let (start, end, bounds, range) = row_bounds-starts (before ++ r) rs j row h in
    let size = length-append before r in
    (
      start,
      end,
      subst (λ n. row_bounds (starts n rs) j ≡ ok (start, end)) size bounds,
      subst (λ (xs : List ℕ). get_range start end xs ≡ some row) (append_assoc before r (concat rs))
          range,
    )
