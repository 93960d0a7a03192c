-- ===== src/Time/Rounding.antt =====
-- How rust_qsim/src/simulation/time/mod.rs rounds between times and ticks.
use parallel_qsim_rust.Prelude.{ℕ, ◌+◌, ◌*◌, ◌/◌, ◌≤◌, ◌<◌, ◌≡◌, some, arith, u64_mod}
use native.Mathlib.Decide.{dec_lt}
use native.Mathlib.Nat.{le-div_iff_mul-le, div-mul-le_self, lt-div-mul-add}
use parallel_qsim_rust.Time.{
  to_u64, SimClock, SimTime, Tick, nanos_per_second, div_ceil, time_to_tick, tick_to_time,
}

-- The least multiple count that covers `a`.
pub div_ceil_bounds : (a b : ℕ) → 0 < b → (a ≤ div_ceil a b * b) × (div_ceil a b * b < a + b)
div_ceil_bounds a b h = grind arith

to_u64_inv : (n : ℕ) {k : ℕ} → to_u64 n ≡ some k → k ≡ n
to_u64_inv n h = ground arith

to_u64_lt : (n : ℕ) {k : ℕ} → to_u64 n ≡ some k → k < u64_mod
to_u64_lt n h = ground arith

time_to_tick_inv :
    (c : SimClock) (t : SimTime) {k : Tick}
    → time_to_tick c t ≡ some k
    → k ≡ div_ceil (t * c.ticks_per_second) nanos_per_second
unfolding time_to_tick
time_to_tick_inv c t e = ground arith

tick_to_time_inv :
    (c : SimClock) (k : Tick) {u : SimTime}
    → tick_to_time c k ≡ some u
    → u ≡ k * nanos_per_second / c.ticks_per_second
unfolding tick_to_time
tick_to_time_inv c k e = to_u64_inv _ e

-- A time that is converted to a tick and back is never moved to an earlier moment, and is moved
-- to a later one by less than a tick: `u * tps < t * tps + 10^9`.
pub tick_to_time-time_to_tick :
    (c : SimClock) (t : SimTime) {k : Tick} {u : SimTime}
    → 0 < c.ticks_per_second
    → time_to_tick c t ≡ some k
    → tick_to_time c k ≡ some u
    → (t ≤ u) × (u * c.ticks_per_second < t * c.ticks_per_second + nanos_per_second)
tick_to_time-time_to_tick c t {k} {u} h e f =
    let p = c.ticks_per_second in
    let (up, close) = div_ceil_bounds (t * p) nanos_per_second (omega arith) in
    let covers : t * p ≤ k * nanos_per_second = rw (time_to_tick_inv c t e) up in
    let near : k * nanos_per_second < t * p + nanos_per_second =
      rw (time_to_tick_inv c t e) close in
    rw (tick_to_time_inv c k f)
      ((le-div_iff_mul-le h).1 covers, omega (arith, div-mul-le_self (k * nanos_per_second) p))

lt_of_mul-lt-mul : (x y b : ℕ) → x * b < y * b → x < y
lt_of_mul-lt-mul x y b h = elim (dec_lt x y) [ yes p ↦ p | no q ↦ grind arith ]

-- A multiple of `b`, less some `r < b`, rounds up to that multiple.
div_ceil_unique : (a b k : ℕ) → 0 < b → a ≤ k * b → k * b < a + b → div_ceil a b ≡ k
div_ceil_unique a b k pos up close =
    let (u, d) = div_ceil_bounds a b pos in
    let above : div_ceil a b < k + 1 = lt_of_mul-lt-mul _ _ b (omega arith) in
    let below : k < div_ceil a b + 1 = lt_of_mul-lt-mul _ _ b (omega arith) in omega arith

-- At a rate of at most 10^9 ticks per second a tick that is converted to a time and back is the same tick.
pub time_to_tick-tick_to_time :
    (c : SimClock) (k : Tick) {u : SimTime}
    → 0 < c.ticks_per_second
    → c.ticks_per_second ≤ nanos_per_second
    → k < u64_mod
    → tick_to_time c k ≡ some u
    → time_to_tick c u ≡ some k
unfolding time_to_tick tick_to_time
time_to_tick-tick_to_time c k {u} pos le fits e =
    let p = c.ticks_per_second in
    let u-eq = tick_to_time_inv c k e in
    let up : u * p ≤ k * nanos_per_second = rw u-eq (div-mul-le_self (k * nanos_per_second) p) in
    let close : k * nanos_per_second < u * p + p =
      rw u-eq (lt-div-mul-add {a = k * nanos_per_second} pos) in
    let exact = div_ceil_unique (u * p) nanos_per_second k (omega arith) up (omega arith) in
    let small : u < u64_mod = to_u64_lt _ e in ground (arith, exact, small)
