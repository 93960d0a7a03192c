-- ===== src/Time/Splitting.antt =====
-- Splitting at a separator in rust_qsim/src/simulation/time/mod.rs.
use parallel_qsim_rust.Prelude.{
  ℕ, zero, suc, ◌≤◌, ◌<◌, ◌≡◌, ◌≢◌, refl, ap, some, none, false, [], ◌∷◌, ◌++◌, length, All, arith,
  take,
}
use parallel_qsim_rust.Time.Text.{Bytes, is_ascii_digit, parse_u64, split, split_once}
use parallel_qsim_rust.Time.Decimal.{IsDigit, IsNumber}
use parallel_qsim_rust.Time.Padding.{all_digits-of-IsDigit}
use parallel_qsim_rust.Time.Format.{ok, normalize_nanos, normalize_nanos_truncate, nine_digits}

abbrev pub Lacks : ℕ → Bytes → Type 0
Lacks sep = All λ c. c ≢ sep

pub IsDigit-Lacks : (sep : ℕ) (s : Bytes) → is_ascii_digit sep ≡ false → All IsDigit s → Lacks sep s
IsDigit-Lacks sep [] h _ = tt
IsDigit-Lacks sep (c ∷ s) h (d, ds) = (λ e. ground arith, IsDigit-Lacks sep s h ds)

pub split_last : (sep : ℕ) (s : Bytes) → Lacks sep s → split sep s ≡ s ∷ []
unfolding split
split_last sep [] _ = refl
split_last sep (c ∷ s) (h, hs) = ground (arith, split_last sep s hs)

pub split-append :
    (sep : ℕ) (p s : Bytes) → Lacks sep p → split sep (p ++ sep ∷ s) ≡ p ∷ split sep s
unfolding split
split-append sep [] s _ = ground arith
split-append sep (c ∷ p) s (h, hs) = ground (arith, split-append sep p s hs)

pub split_once-none : (sep : ℕ) (s : Bytes) → Lacks sep s → split_once sep s ≡ none
unfolding split_once
split_once-none sep [] _ = refl
split_once-none sep (c ∷ s) (h, hs) = ground (arith, split_once-none sep s hs)

pub split_once-append :
    (sep : ℕ) (p s : Bytes) → Lacks sep p → split_once sep (p ++ sep ∷ s) ≡ some (p, s)
unfolding split_once
split_once-append sep [] s _ = ground arith
split_once-append sep (c ∷ p) s (h, hs) = ground (arith, split_once-append sep p s hs)

take-length : (n : ℕ) (s : Bytes) → length s ≤ n → take n s ≡ s
take-length zero [] h = refl
take-length zero (c ∷ s) h = absurd (omega arith)
take-length (suc n) [] h = refl
take-length (suc n) (c ∷ s) h = ap (◌∷◌ c) (take-length n s (omega arith))

length_pos : (s : Bytes) → s ≢ [] → 0 < length s
length_pos [] h = absurd (h refl)
length_pos (c ∷ s) h = omega arith

module _ (t : Bytes) {n : ℕ} (num : IsNumber t) (short : length t ≤ 9)
    (reads : parse_u64 (nine_digits t) ≡ some n) where
  pub normalize_nanos_reads : normalize_nanos t ≡ ok n
  unfolding normalize_nanos
  normalize_nanos_reads = ground (arith, all_digits-of-IsDigit t num.1, length_pos t num.0)

  pub normalize_nanos_truncate_reads : normalize_nanos_truncate t ≡ ok n
  unfolding normalize_nanos_truncate
  normalize_nanos_truncate_reads =
      rw (take-length 9 t short) (ground (arith, all_digits-of-IsDigit t num.1, length_pos t num.0))
