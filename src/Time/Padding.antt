-- ===== src/Time/Padding.antt =====
-- Zero padding and trimming in the decimal formats of rust_qsim/src/simulation/time/mod.rs.
use mathlib.Core.List.{cons-ne-nil}
use parallel_qsim_rust.Prelude.{
  ℕ, suc, ◌-◌, ◌^◌, ◌≤◌, ◌<◌, ◌≡◌, ◌≢◌, refl, sym, ap, ◌∙◌, some, true, ◌==◌, [], ◌∷◌, ◌++◌,
  append-nil, length, length-append, All, arith, u64_mod, inl, inr, Bool-cases,
}
use parallel_qsim_rust.Time.Text.{
  Bytes, all_digits, scan, parse_u64, display, zeros, display_padded, drop_zero, trim_zeros,
}
use parallel_qsim_rust.Time.Decimal.{
  IsDigit, IsNumber, scan-zeros, length-zeros, scan-display, display-IsNumber,
  display_padded-IsNumber, append-ne-nil, length-display, parse_u64-scan,
}

scan-display_padded : (w n : ℕ) → n < u64_mod → scan (display_padded w n) 0 ≡ some n
unfolding display_padded
scan-display_padded w n fits =
    let front = scan-zeros (w - length (display n)) (display n) in
    let back = scan-display n [] fits in
    rw (front, ← append-nil (display n), back) (unfold scan in refl)

-- The printed form of every `u64`, padded or not, is read back as that number.
pub parse_u64-display_padded : (w n : ℕ) → n < u64_mod → parse_u64 (display_padded w n) ≡ some n
parse_u64-display_padded w n fits =
    parse_u64-scan _ (display_padded-IsNumber w n) ∙ scan-display_padded w n fits

pub parse_u64-display : (n : ℕ) → n < u64_mod → parse_u64 (display n) ≡ some n
parse_u64-display n fits =
    let back = scan-display n [] fits in
    rw (parse_u64-scan _ (display-IsNumber n), ← append-nil (display n), back) (unfold scan in refl)

pub length-display_padded : (w n : ℕ) → 0 < w → n < 10 ^ w → length (display_padded w n) ≡ w
length-display_padded w n pos small =
    unfold display_padded in
    omega (
      arith,
      length-append (zeros (w - length (display n))) (display n),
      length-zeros (w - length (display n)),
      length-display w n pos small,
    )

pub all_digits-of-IsDigit : (s : Bytes) → All IsDigit s → all_digits s ≡ true
unfolding all_digits
all_digits-of-IsDigit [] _ = refl
all_digits-of-IsDigit (c ∷ s) (h, hs) = rw (h, all_digits-of-IsDigit s hs)

drop_zero-zeros :
    (c : ℕ) (t : Bytes) (k : ℕ) → (j : ℕ) × (c ∷ (t ++ zeros k) ≡ drop_zero c t ++ zeros j)
unfolding zeros
drop_zero-zeros c [] k = elim (Bool-cases (c == b'0')) [
  | inl e ↦ (suc k, rw e (ground arith))
  | inr e ↦ (k, rw e refl)
]
drop_zero-zeros c (d ∷ t) k = (k, refl)

-- What is trimmed off is zeros.
trim_zeros-zeros : (s : Bytes) → (k : ℕ) × (s ≡ trim_zeros s ++ zeros k)
unfolding trim_zeros
trim_zeros-zeros [] = (0, unfold zeros in refl)
trim_zeros-zeros (c ∷ s) =
    let (k, e) = trim_zeros-zeros s in
    let (j, d) = drop_zero-zeros c (trim_zeros s) k in (j, ap (◌∷◌ c) e ∙ d)

length-trim_zeros : (s : Bytes) → length (trim_zeros s) ≤ length s
length-trim_zeros s =
    let (k, e) = trim_zeros-zeros s in
    omega (arith, ap length e, length-append (trim_zeros s) (zeros k), length-zeros k)

-- Filling a trimmed text up to its old length gives it back.
pub fill-trim_zeros :
    (n : ℕ) (s : Bytes) → length s ≡ n → trim_zeros s ++ zeros (n - length (trim_zeros s)) ≡ s
fill-trim_zeros n s h =
    let (k, e) = trim_zeros-zeros s in
    let count : n - length (trim_zeros s) ≡ k =
      omega (arith, ap length e, length-append (trim_zeros s) (zeros k), length-zeros k) in
    rw count (sym e)

drop_zero-IsDigit : (c : ℕ) (t : Bytes) → IsDigit c → All IsDigit t → All IsDigit (drop_zero c t)
drop_zero-IsDigit c [] h hs = ground arith
drop_zero-IsDigit c (d ∷ t) h hs = (h, hs)

trim_zeros-IsDigit : (s : Bytes) → All IsDigit s → All IsDigit (trim_zeros s)
unfolding trim_zeros
trim_zeros-IsDigit [] _ = tt
trim_zeros-IsDigit (c ∷ s) (h, hs) = drop_zero-IsDigit c (trim_zeros s) h (trim_zeros-IsDigit s hs)

drop_zero_cons : (c : ℕ) (t : Bytes) → t ≢ [] → drop_zero c t ≡ c ∷ t
drop_zero_cons c [] h = absurd (h refl)
drop_zero_cons c (d ∷ t) h = refl

-- Trimming stops inside the last part, if that has a digit other than zero.
pub trim_zeros-append : (p s : Bytes) → trim_zeros s ≢ [] → trim_zeros (p ++ s) ≡ p ++ trim_zeros s
trim_zeros-append [] s h = refl
trim_zeros-append (c ∷ p) s h =
    unfold_trim
    ∙ ap (drop_zero c) (trim_zeros-append p s h)
    ∙ drop_zero_cons c (p ++ trim_zeros s) (append-ne-nil p (trim_zeros s) h)
  where
    unfold_trim : trim_zeros (c ∷ (p ++ s)) ≡ drop_zero c (trim_zeros (p ++ s))
    unfold_trim = unfold trim_zeros in refl

-- The same behind a separator.
pub trim_zeros-append-cons :
    (p : Bytes) (c : ℕ) (s : Bytes)
    → trim_zeros s ≢ []
    → (trim_zeros (p ++ c ∷ s) ≡ p ++ c ∷ trim_zeros s) × (trim_zeros (p ++ c ∷ s) ≢ [])
trim_zeros-append-cons p c s h =
    let one = trim_zeros-append (c ∷ []) s h in
    let ne : trim_zeros (c ∷ s) ≢ [] = rw one (cons-ne-nil _ _) in
    let all = trim_zeros-append p (c ∷ s) ne ∙ ap (λ t. p ++ t) one in
    (all, rw all (append-ne-nil p _ (cons-ne-nil _ _)))

trim_zeros-ne-nil : (s : Bytes) {n : ℕ} → scan s 0 ≡ some n → 0 < n → trim_zeros s ≢ []
trim_zeros-ne-nil s {n} h pos e =
    let (k, z) = trim_zeros-zeros s in
    let all_zero : s ≡ zeros k ++ [] = z ∙ ap (λ t. t ++ zeros k) e ∙ sym (append-nil (zeros k)) in
    let nought : scan s 0 ≡ some 0 =
      ap (λ t. scan t 0) all_zero ∙ scan-zeros k [] ∙ (unfold scan in refl) in
    ground (arith, nought)

-- The digits behind the point: nine of them, trimmed.
pub trimmed_nanos :
    (n : ℕ)
    → 0 < n
    → n < 10 ^ 9
    → let d = display_padded 9 n in
      IsNumber (trim_zeros d)
      × (length (trim_zeros d) ≤ 9)
      × (parse_u64 (trim_zeros d ++ zeros (9 - length (trim_zeros d))) ≡ some n)
trimmed_nanos n pos small =
    let d = display_padded 9 n in
    let nine = length-display_padded 9 n (omega arith) small in
    let (_, ds) = display_padded-IsNumber 9 n in
    let ne = trim_zeros-ne-nil d (scan-display_padded 9 n (omega arith)) pos in
    (
      (ne, trim_zeros-IsDigit d ds),
      omega (arith, length-trim_zeros d, nine),
      rw (fill-trim_zeros 9 d nine) (parse_u64-display_padded 9 n (omega arith)),
    )
