-- ===== src/Time/RoundTrip.antt =====
-- The printers and parsers of rust_qsim/src/simulation/time/mod.rs undo one another.
use parallel_qsim_rust.Prelude.{
  ℕ, ◌*◌, ◌/◌, ◌%◌, ◌^◌, ◌≤◌, ◌<◌, ◌≡◌, ◌≢◌, refl, some, false, ◌==◌, if◌then◌else◌, [], ◌∷◌, ◌++◌,
  length, All-append, arith, u64_mod, inl, inr, Bool-cases,
}
use parallel_qsim_rust.Time.{SimTime, nanos_per_second}
use parallel_qsim_rust.Time.Text.{
  Bytes, parse_u64, display, display_padded, trim_zeros, split, split_once,
}
use parallel_qsim_rust.Time.Decimal.{IsNumber, display-IsNumber, display_padded-IsNumber}
use parallel_qsim_rust.Time.Padding.{
  trim_zeros-append-cons, trimmed_nanos, parse_u64-display_padded, parse_u64-display,
}
use parallel_qsim_rust.Time.Splitting.{
  Lacks, IsDigit-Lacks, split_last, split-append, split_once-none, split_once-append,
  normalize_nanos_reads, normalize_nanos_truncate_reads,
}
use parallel_qsim_rust.Time.Format.{
  Result, ok, normalize_nanos, normalize_nanos_truncate, seconds_and_nanos, checked_total_nanos,
  parse_parts, parse, parse_decimal_seconds, format_decimal_seconds, format_hh_mm_ss_trimmed,
  nine_digits, total_seconds,
}

-- The seconds, with the point and the trimmed digits behind it unless they are all zero.
abbrev tail : Bytes → ℕ → Bytes
tail seconds nanos =
    if nanos == 0 then seconds else seconds ++ b'.' ∷ trim_zeros (display_padded 9 nanos)

-- A reader of the digits behind the point, as far as printed digits go.
abbrev Reads : (Bytes → Result ℕ) → Type 0
Reads read =
    (t : Bytes) (n : ℕ)
    → IsNumber t
    → length t ≤ 9
    → parse_u64 (nine_digits t) ≡ some n
    → read t ≡ ok n

seconds_and_nanos-tail :
    (read : Bytes → Result ℕ) (seconds : Bytes) (s n : ℕ)
    → Reads read
    → IsNumber seconds
    → parse_u64 seconds ≡ some s
    → n < 10 ^ 9
    → seconds_and_nanos read (tail seconds n) (split_once b'.' (tail seconds n)) ≡ ok (s, n)
unfolding seconds_and_nanos
seconds_and_nanos-tail read seconds s n reads num e small = elim (Bool-cases (n == 0)) [
  | inl nought ↦
      rw nought (
        rw (split_once-none b'.' seconds (IsDigit-Lacks b'.' seconds refl num.1), e) (ground arith))
  | inr some_nanos ↦
      let (tn, short, back) = trimmed_nanos n (ground arith) small in
      rw some_nanos (
        rw
          (
            split_once-append b'.' seconds _ (IsDigit-Lacks b'.' seconds refl num.1),
            e,
            reads _ n tn short back,
          )
          refl)
]

checked_total_nanos-split :
    (t : SimTime)
    → t < u64_mod
    → checked_total_nanos (t / nanos_per_second) (t % nanos_per_second) ≡ ok t
unfolding checked_total_nanos
checked_total_nanos-split t fits = ground arith

small_nanos : (t : SimTime) → t % nanos_per_second < 10 ^ 9
small_nanos t = omega arith

trimmed_ne :
    (t : SimTime)
    → (t % nanos_per_second == 0) ≡ false
    → trim_zeros (display_padded 9 (t % nanos_per_second)) ≢ []
trimmed_ne t e = (trimmed_nanos (t % nanos_per_second) (ground arith) (small_nanos t)).0.0

format_decimal_seconds-tail :
    (t : SimTime)
    → format_decimal_seconds t ≡ tail (display (t / nanos_per_second)) (t % nanos_per_second)
unfolding format_decimal_seconds
format_decimal_seconds-tail t = elim (Bool-cases (t % nanos_per_second == 0)) [
  | inl e ↦ rw e refl
  | inr e ↦ rw e (trim_zeros-append-cons _ b'.' _ (trimmed_ne t e)).0
]

-- Every time is read back from its decimal print.
pub parse_decimal_seconds-format_decimal_seconds :
    (t : SimTime) → t < u64_mod → parse_decimal_seconds (format_decimal_seconds t) ≡ ok t
unfolding parse_decimal_seconds
parse_decimal_seconds-format_decimal_seconds t fits =
    rw
      (
        format_decimal_seconds-tail t,
        seconds_and_nanos-tail normalize_nanos_truncate _ (t / nanos_per_second) _
            (λ s n. normalize_nanos_truncate_reads s) (display-IsNumber _)
            (parse_u64-display _ (omega arith)) (small_nanos t),
      )
      (checked_total_nanos-split t fits)

-- The hours, minutes and seconds of a time.
abbrev clock_text : SimTime → Bytes
clock_text t =
    let total = t / nanos_per_second in
    display_padded 2 (total / 3600)
    ++ b':'
      ∷ (display_padded 2 (total % 3600 / 60)
          ++ b':' ∷ tail (display_padded 2 (total % 60)) (t % nanos_per_second))

format_hh_mm_ss_trimmed-clock_text : (t : SimTime) → format_hh_mm_ss_trimmed t ≡ clock_text t
unfolding format_hh_mm_ss_trimmed
format_hh_mm_ss_trimmed-clock_text t = elim (Bool-cases (t % nanos_per_second == 0)) [
  | inl e ↦ rw e refl
  | inr e ↦
      let (p, ne) =
        trim_zeros-append-cons (display_padded 2 (t / nanos_per_second % 60)) b'.' _
          (trimmed_ne t e) in
      let (q, ne') =
        trim_zeros-append-cons (display_padded 2 (t / nanos_per_second % 3600 / 60)) b':' _ ne in
      let (r, _) =
        trim_zeros-append-cons (display_padded 2 (t / nanos_per_second / 3600)) b':' _ ne' in
      rw e (rw (r, q, p) refl)
]

tail-Lacks : (s : Bytes) (n : ℕ) → IsNumber s → n < 10 ^ 9 → Lacks b':' (tail s n)
tail-Lacks s n num small = elim (Bool-cases (n == 0)) [
  | inl e ↦ rw e (IsDigit-Lacks b':' s refl num.1)
  | inr e ↦
      let (tn, _, _) = trimmed_nanos n (ground arith) small in
      rw e (
        All-append (λ c. c ≢ b':') s _ (IsDigit-Lacks b':' s refl num.1)
          (λ e. ground arith, IsDigit-Lacks b':' _ refl tn.1))
]

split-clock_text :
    (t : SimTime)
    → let total = t / nanos_per_second in
      split b':' (clock_text t)
      ≡ display_padded 2 (total / 3600)
        ∷ display_padded 2 (total % 3600 / 60)
        ∷ tail (display_padded 2 (total % 60)) (t % nanos_per_second)
        ∷ []
split-clock_text t =
    let total = t / nanos_per_second in
    let lacks = λ (n : ℕ). IsDigit-Lacks b':' _ refl (display_padded-IsNumber 2 n).1 in
    rw
      (
        split-append b':' _ _ (lacks (total / 3600)),
        split-append b':' _ _ (lacks (total % 3600 / 60)),
        split_last b':' _ (tail-Lacks _ _ (display_padded-IsNumber 2 (total % 60)) (small_nanos t)),
      )
      refl

total_seconds-split :
    (n : ℕ)
    → n * nanos_per_second < u64_mod
    → total_seconds (n / 3600) (n % 3600 / 60) (n % 60) ≡ some n
total_seconds-split n fits = ground arith

-- Every time is read back from its print as hours, minutes and seconds.
pub parse-format_hh_mm_ss_trimmed :
    (t : SimTime) → t < u64_mod → parse (format_hh_mm_ss_trimmed t) ≡ ok t
unfolding parse parse_parts
parse-format_hh_mm_ss_trimmed t fits =
    let total = t / nanos_per_second in
    rw
      (
        format_hh_mm_ss_trimmed-clock_text t,
        split-clock_text t,
        parse_u64-display_padded 2 (total / 3600) (omega arith),
        parse_u64-display_padded 2 (total % 3600 / 60) (omega arith),
        seconds_and_nanos-tail normalize_nanos _ (total % 60) _ (λ s n. normalize_nanos_reads s)
            (display_padded-IsNumber 2 _) (parse_u64-display_padded 2 _ (omega arith))
            (small_nanos t),
        total_seconds-split total (omega arith),
      )
      (checked_total_nanos-split t fits)
