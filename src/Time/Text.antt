-- ===== src/Time/Text.antt =====
-- The text functions of the Rust standard library that rust_qsim/src/simulation/time/mod.rs calls,
-- over the bytes of an ASCII text: `str::parse::<u64>`, `split`, `split_once`,
-- `trim_end_matches('0')` and the decimal formats `{}`, `{:02}` and `{:09}`.
use parallel_qsim_rust.Prelude.{
  ℕ, zero, suc, ◌+◌, ◌-◌, ◌/◌, ◌%◌, Option, none, some, Bool, true, ◌&&◌, ◌==◌, ltb, leb,
  if◌then◌else◌, ◌>>=◌, List, [], ◌∷◌, ◌++◌, length, checked_add, checked_mul,
}
use Prim.Native.Char.{code}
use Prim.Native.String.{String}

abbrev pub Bytes : Type 0
Bytes = List ℕ

abbrev pub codes : String → Bytes
codes String.[] = []
codes (String.◌∷◌ c s) = code c ∷ codes s

abbrev pub is_ascii_digit : ℕ → Bool
is_ascii_digit c = leb b'0' c && leb c b'9'

unfoldable pub all_digits : Bytes → Bool
all_digits [] = true
all_digits (c ∷ s) = is_ascii_digit c && all_digits s

-- The digits after those that make `n`, with the overflow checks of `parse`.
unfoldable pub scan : Bytes → ℕ → Option ℕ
scan [] n = some n
scan (c ∷ s) n =
    if is_ascii_digit c
    then checked_mul n 10 >>= (λ m. checked_add m (c - b'0') >>= (λ k. scan s k))
    else none

-- An empty text and a lone sign are errors; a leading `+` is accepted.
unfoldable pub parse_u64 : Bytes → Option ℕ
parse_u64 [] = none
parse_u64 (c ∷ []) = scan (c ∷ []) 0
parse_u64 (c ∷ d ∷ s) = if c == b'+' then scan (d ∷ s) 0 else scan (c ∷ d ∷ s) 0

-- The `f` digits of a number below 10^f, without leading zeros.
unfoldable pub digits : ℕ → ℕ → Bytes
digits zero n = []
digits (suc f) n =
    let front = digits f (n / 10) in
    if ltb n 10 then (b'0' + n) ∷ [] else front ++ (b'0' + n % 10) ∷ []

-- A `u64` has at most twenty digits.
unfoldable pub display : ℕ → Bytes
unfolding digits
display n = digits 20 n

unfoldable pub zeros : ℕ → Bytes
zeros zero = []
zeros (suc n) = b'0' ∷ zeros n

-- `{:0w}`.
unfoldable pub display_padded : ℕ → ℕ → Bytes
unfolding display zeros
display_padded w n = zeros (w - length (display n)) ++ display n

abbrev pub onto : ℕ → List Bytes → List Bytes
onto c [] = (c ∷ []) ∷ []
onto c (p ∷ ps) = (c ∷ p) ∷ ps

-- There is always a first part.
unfoldable pub split : ℕ → Bytes → List Bytes
split sep [] = [] ∷ []
split sep (c ∷ s) = if c == sep then [] ∷ split sep s else onto c (split sep s)

unfoldable pub split_once : ℕ → Bytes → Option (Bytes × Bytes)
split_once sep [] = none
split_once sep (c ∷ s) =
    let later = split_once sep s >>= (λ (a, b). some (c ∷ a, b)) in
    if c == sep then some ([], s) else later

abbrev pub drop_zero : ℕ → Bytes → Bytes
drop_zero c [] = if c == b'0' then [] else c ∷ []
drop_zero c (d ∷ s) = c ∷ d ∷ s

-- `trim_end_matches('0')`.
unfoldable pub trim_zeros : Bytes → Bytes
trim_zeros [] = []
trim_zeros (c ∷ s) = drop_zero c (trim_zeros s)
