-- ===== src/Time/Decimal.antt =====
-- Decimal numbers: reading back what the formats of rust_qsim/src/simulation/time/mod.rs print.
use native.Mathlib.Nat.{pow-suc}
use mathlib.Core.List.{concat-ne-nil, cons-ne-nil}
use parallel_qsim_rust.Prelude.{
  ℕ, zero, suc, ◌+◌, ◌-◌, ◌/◌, ◌%◌, ◌^◌, ◌≤◌, ◌<◌, ◌≡◌, ◌≢◌, refl, ap, true, ltb, [], ◌∷◌, ◌++◌,
  append_assoc, length, length-append, All, All-append, arith, ltb→lt, ◌∙◌, u64_mod, inl, inr,
  Bool-cases,
}
use parallel_qsim_rust.Time.Text.{
  Bytes, is_ascii_digit, scan, parse_u64, digits, display, zeros, display_padded,
}

abbrev pub IsDigit : ℕ → Type 0
IsDigit c = is_ascii_digit c ≡ true

-- A text that the readers take for a number without a sign.
abbrev pub IsNumber : Bytes → Type 0
IsNumber s = (s ≢ []) × All IsDigit s

digits-IsDigit : (f n : ℕ) → All IsDigit (digits f n)
unfolding digits
digits-IsDigit zero n = tt
digits-IsDigit (suc f) n = elim (Bool-cases (ltb n 10)) [
  | inl small ↦ rw small (ground arith, tt)
  | inr large ↦
      rw large
        (All-append IsDigit (digits f (n / 10)) _ (digits-IsDigit f (n / 10)) (ground arith, tt))
]

scan_digit : (n : ℕ) (s : Bytes) → n < u64_mod → scan ((b'0' + n % 10) ∷ s) (n / 10) ≡ scan s n
unfolding scan
scan_digit n s fits = ground arith

scan_one : (n : ℕ) (s : Bytes) → n < 10 → scan ((b'0' + n) ∷ s) 0 ≡ scan s n
unfolding scan
scan_one n s small = ground arith

-- The digits of a number lead the reader to the number.
scan-digits : (f n : ℕ) (s : Bytes) → n < 10 ^ f → n < u64_mod → scan (digits f n ++ s) 0 ≡ scan s n
unfolding digits
scan-digits zero n s small fits = ap (scan s) (omega arith)
scan-digits (suc f) n s small fits = elim (Bool-cases (ltb n 10)) [
  | inl one ↦ rw one (scan_one n s (ltb→lt n 10 one))
  | inr more ↦
      rw (more, append_assoc)
        (scan-digits f (n / 10) _ (omega (arith, pow-suc 10 f)) (omega arith) ∙ scan_digit n s fits)
]

pub scan-zeros : (k : ℕ) (s : Bytes) → scan (zeros k ++ s) 0 ≡ scan s 0
unfolding scan zeros
scan-zeros zero s = refl
scan-zeros (suc k) s = scan-zeros k s

pub zeros-IsDigit : (k : ℕ) → All IsDigit (zeros k)
unfolding zeros
zeros-IsDigit zero = tt
zeros-IsDigit (suc k) = (refl, zeros-IsDigit k)

pub length-zeros : (k : ℕ) → length (zeros k) ≡ k
unfolding zeros
length-zeros zero = refl
length-zeros (suc k) = ap suc (length-zeros k)

length_positive : (w n : ℕ) → n < 10 ^ suc w → 10 ≤ n → 0 < w
length_positive zero n small h = absurd (omega arith)
length_positive (suc w) n small h = omega arith

length-digits : (f w n : ℕ) → 0 < w → n < 10 ^ w → length (digits f n) ≤ w
unfolding digits
length-digits zero w n h small = omega arith
length-digits (suc f) zero n h small = elim h [ ]
length-digits (suc f) (suc w) n h small =
    let last : Bytes = (b'0' + n % 10) ∷ [] in
    let room = length-digits f w (n / 10) in
    let scale = pow-suc 10 w in
    let wide : 10 ≤ n → 0 < w = length_positive w n small in
    ground (arith, room, length-append (digits f (n / 10)) last)

digits-ne-nil : (f n : ℕ) → digits (suc f) n ≢ []
unfolding digits
digits-ne-nil f n = elim (Bool-cases (ltb n 10)) [
  | inl one ↦ rw one (cons-ne-nil _ _)
  | inr more ↦ rw more (concat-ne-nil _ _)
]

pub append-ne-nil : (xs ys : Bytes) → ys ≢ [] → xs ++ ys ≢ []
append-ne-nil [] ys h = h
append-ne-nil (x ∷ xs) ys h = cons-ne-nil _ _

pub parse_u64-scan : (s : Bytes) → IsNumber s → parse_u64 s ≡ scan s 0
unfolding parse_u64
parse_u64-scan [] (h, _) = absurd (h refl)
parse_u64-scan (c ∷ []) _ = refl
parse_u64-scan (c ∷ d ∷ s) (_, h) = ground arith

pub scan-display : (n : ℕ) (s : Bytes) → n < u64_mod → scan (display n ++ s) 0 ≡ scan s n
unfolding display
scan-display n s fits = scan-digits 20 n s (omega arith) fits

pub display-IsNumber : (n : ℕ) → IsNumber (display n)
unfolding display
display-IsNumber n = (digits-ne-nil 19 n, digits-IsDigit 20 n)

pub length-display : (w n : ℕ) → 0 < w → n < 10 ^ w → length (display n) ≤ w
unfolding display
length-display w n pos small = length-digits 20 w n pos small

pub display_padded-IsNumber : (w n : ℕ) → IsNumber (display_padded w n)
display_padded-IsNumber w n =
    unfold display_padded in
    (
      append-ne-nil _ _ (display-IsNumber n).0,
      All-append IsDigit (zeros (w - length (display n))) _ (zeros-IsDigit _)
          (display-IsNumber n).1,
    )
