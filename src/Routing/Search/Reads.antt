-- ===== src/Routing/Search/Reads.antt =====
-- Reads and writes of vectors within their bounds.
use parallel_qsim_rust.Prelude.{
  ℕ, zero, suc, ◌<◌, ◌≡◌, refl, ◌==◌, if◌then◌else◌, some, List, [], ◌∷◌, ◌++◌, length, get_elem?,
  arith, ap,
}
use parallel_qsim_rust.Routing.Search.Core.{set}

module _ {A : Type 0} where
  abbrev pub get_or : List A → ℕ → A → A
  get_or [] i d = d
  get_or (x ∷ xs) zero d = x
  get_or (x ∷ xs) (suc i) d = get_or xs i d

  pub get_elem?-get_or :
      (xs : List A) (i : ℕ) (d : A) → i < length xs → get_elem? xs i ≡ some (get_or xs i d)
  get_elem?-get_or [] i d h = absurd (omega arith)
  get_elem?-get_or (x ∷ xs) zero d h = refl
  get_elem?-get_or (x ∷ xs) (suc i) d h = get_elem?-get_or xs i d (omega arith)

  pub length-set : (xs : List A) (i : ℕ) (v : A) → length (set xs i v) ≡ length xs
  length-set [] i v = refl
  length-set (x ∷ xs) zero v = refl
  length-set (x ∷ xs) (suc i) v = ap suc (length-set xs i v)

  pub get_or-set :
      (xs : List A) (i j : ℕ) (v d : A)
      → i < length xs
      → get_or (set xs i v) j d ≡ (if i == j then v else get_or xs j d)
  get_or-set [] i j v d h = absurd (omega arith)
  get_or-set (x ∷ xs) zero zero v d h = refl
  get_or-set (x ∷ xs) zero (suc j) v d h = ground arith
  get_or-set (x ∷ xs) (suc i) zero v d h = ground arith
  get_or-set (x ∷ xs) (suc i) (suc j) v d h = ground (arith, get_or-set xs i j v d)

  pub get_or-append_last :
      (xs : List A) (j : ℕ) (v d : A)
      → get_or (xs ++ v ∷ []) j d ≡ (if length xs == j then v else get_or xs j d)
  get_or-append_last [] zero v d = ground arith
  get_or-append_last [] (suc j) v d = ground arith
  get_or-append_last (x ∷ xs) zero v d = ground arith
  get_or-append_last (x ∷ xs) (suc j) v d = ground (arith, get_or-append_last xs j v d)
