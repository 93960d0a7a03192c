-- ===== src/Time/Format.antt =====
-- Parsing and printing of times in rust_qsim/src/simulation/time/mod.rs.
use parallel_qsim_rust.Prelude.{
  ℕ, ◌-◌, ◌/◌, ◌%◌, Option, none, some, Bool, not, ◌||◌, ◌==◌, ltb, if◌then◌else◌, List, [], ◌∷◌,
  ◌++◌, length, take, checked_add, checked_mul,
}
use parallel_qsim_rust.Time.{SimTime, nanos_per_second}
use parallel_qsim_rust.Time.Text.{
  Bytes, all_digits, parse_u64, display, display_padded, zeros, split, split_once, trim_zeros,
}

-- The messages of `Err(String)`, one constructor each.
pub data ParseError : Type 0 where
  invalid_hours missing_minutes invalid_minutes missing_seconds invalid_seconds : ParseError
  too_many_separators expected_digits invalid_nanoseconds : ParseError
  time_components_overflow nanoseconds_overflow : ParseError

pub data Result (A : Type 0) : Type 0 where
  ok : A → Result A
  err : ParseError → Result A

infixl 5 ◌>>=◌
abbrev pub ◌>>=◌ : {A B : Type 0} → Result A → (A → Result B) → Result B
ok a >>= f = f a
err e >>= f = err e

abbrev pub ok_or : {A : Type 0} → Option A → ParseError → Result A
ok_or none e = err e
ok_or (some a) e = ok a

abbrev pub and_then : {A B : Type 0} → Option A → (A → Option B) → Option B
and_then none f = none
and_then (some a) f = f a

unfoldable pub checked_total_nanos : ℕ → ℕ → Result ℕ
checked_total_nanos seconds nanos =
    ok_or (and_then (checked_mul seconds nanos_per_second) (λ w. checked_add w nanos))
      nanoseconds_overflow

-- Pads with zeros up to nine digits.
abbrev pub nine_digits : Bytes → Bytes
nine_digits s = s ++ zeros (9 - length s)

abbrev pub is_empty : Bytes → Bool
is_empty s = length s == 0

unfoldable pub normalize_nanos : Bytes → Result ℕ
unfolding all_digits
normalize_nanos s =
    if is_empty s || ltb 9 (length s) || not (all_digits s)
    then err expected_digits
    else ok_or (parse_u64 (nine_digits s)) invalid_nanoseconds

unfoldable pub normalize_nanos_truncate : Bytes → Result ℕ
unfolding all_digits
normalize_nanos_truncate s =
    if is_empty s || not (all_digits s)
    then err expected_digits
    else ok_or (parse_u64 (nine_digits (take 9 s))) invalid_nanoseconds

-- The seconds and nanoseconds of the third part; `truncate` is the reader of the digits behind the point.
unfoldable pub seconds_and_nanos :
    (Bytes → Result ℕ) → Bytes → Option (Bytes × Bytes) → Result (ℕ × ℕ)
seconds_and_nanos read whole (some (seconds, nanos)) = do
  s ← ok_or (parse_u64 seconds) invalid_seconds
  n ← read nanos
  ok (s, n)
seconds_and_nanos read whole none = do s ← ok_or (parse_u64 whole) invalid_seconds; ok (s, 0)

abbrev pub total_seconds : ℕ → ℕ → ℕ → Option ℕ
total_seconds hours minutes seconds = and_then (checked_mul hours 60) λ h.
    and_then (checked_add h minutes)
      λ m. and_then (checked_mul m 60) λ whole. checked_add whole seconds

-- `parse` behind `input.split(':')`.
unfoldable pub parse_parts : List Bytes → Result SimTime
unfolding seconds_and_nanos normalize_nanos checked_total_nanos
parse_parts [] = err invalid_hours
parse_parts (h ∷ []) = do hours ← ok_or (parse_u64 h) invalid_hours; err missing_minutes
parse_parts (h ∷ m ∷ []) = do
  hours ← ok_or (parse_u64 h) invalid_hours
  minutes ← ok_or (parse_u64 m) invalid_minutes
  err missing_seconds
parse_parts (h ∷ m ∷ s ∷ []) = do
  hours ← ok_or (parse_u64 h) invalid_hours
  minutes ← ok_or (parse_u64 m) invalid_minutes
  (seconds, nanos) ← seconds_and_nanos normalize_nanos s (split_once b'.' s)
  total ← ok_or (total_seconds hours minutes seconds) time_components_overflow
  checked_total_nanos total nanos
parse_parts (h ∷ m ∷ s ∷ more ∷ rest) = do
  hours ← ok_or (parse_u64 h) invalid_hours
  minutes ← ok_or (parse_u64 m) invalid_minutes
  err too_many_separators

unfoldable pub parse : Bytes → Result SimTime
unfolding parse_parts split
parse input = parse_parts (split b':' input)

unfoldable pub parse_decimal_seconds : Bytes → Result SimTime
unfolding seconds_and_nanos normalize_nanos_truncate checked_total_nanos
parse_decimal_seconds input = do
  (seconds, nanos) ← seconds_and_nanos normalize_nanos_truncate input (split_once b'.' input)
  checked_total_nanos seconds nanos

unfoldable pub format_decimal_seconds : SimTime → Bytes
format_decimal_seconds t =
    let seconds = t / nanos_per_second in
    let nanos = t % nanos_per_second in
    if nanos == 0
    then display seconds
    else trim_zeros (display seconds ++ b'.' ∷ display_padded 9 nanos)

unfoldable pub format_hh_mm_ss_trimmed : SimTime → Bytes
format_hh_mm_ss_trimmed t =
    let total = t / nanos_per_second in
    let nanos = t % nanos_per_second in
    let hours = display_padded 2 (total / 3600) in
    let minutes = display_padded 2 (total % 3600 / 60) in
    let seconds = display_padded 2 (total % 60) in
    if nanos == 0
    then hours ++ b':' ∷ (minutes ++ b':' ∷ seconds)
    else trim_zeros (hours ++ b':' ∷ (minutes ++ b':' ∷ (seconds ++ b'.' ∷ display_padded 9 nanos)))
