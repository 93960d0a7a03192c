-- ===== src/Time.antt =====
-- rust_qsim/src/simulation/time/mod.rs: ticks, simulation time and the clock between them.
-- `Tick` and `SimTime` are a `u64` each, so both are plain numbers here: a `SimTime` is its
-- nanoseconds, a `Duration` too. `none` is a panic. `-` and `+` wrap, as in the release profile.
pub mod Bounds
pub mod Rounding
pub mod Text
pub mod Format
pub mod Decimal
pub mod Padding
pub mod Splitting
pub mod RoundTrip
pub mod Tests
use parallel_qsim_rust.Prelude.{
  ℕ, ◌+◌, ◌-◌, ◌*◌, ◌/◌, ◌%◌, Option, none, some, Bool, ◌==◌, ltb, leb, if◌then◌else◌, ◌>>=◌, min,
  u64_mod, u64_max, checked_add, saturating_add, saturating_sub, wrapping_add, wrapping_sub,
}

abbrev pub Tick : Type 0
Tick = ℕ

abbrev pub SimTime : Type 0
SimTime = ℕ

abbrev pub Duration : Type 0
Duration = ℕ

abbrev pub nanos_per_second : ℕ
nanos_per_second = 1_000_000_000

-- `Duration::MAX`: u64::MAX seconds and 999_999_999 nanoseconds.
abbrev pub duration_max : ℕ
duration_max = 18446744073709551615_999999999

-- `try_into::<u64>().expect(..)`.
abbrev pub to_u64 : ℕ → Option ℕ
to_u64 n = if ltb n u64_mod then some n else none

unfoldable pub tick_next : Tick → Tick
tick_next t = saturating_add t 1

pub tick_is_multiple_of : Tick → ℕ → Bool
tick_is_multiple_of t rhs = t % rhs == 0

pub tick_checked_add : Tick → Tick → Option Tick
tick_checked_add = checked_add

unfoldable pub tick_saturating_add : Tick → Tick → Tick
tick_saturating_add = saturating_add

pub tick_saturating_sub : Tick → Tick → Tick
tick_saturating_sub = saturating_sub

pub tick_add : Tick → Tick → Tick
tick_add = wrapping_add

unfoldable pub tick_sub : Tick → Tick → Tick
tick_sub = wrapping_sub

-- `assert_duration_fits_simtime`, then the wrapped duration.
unfoldable pub from_duration : Duration → Option SimTime
from_duration d = if leb d u64_max then some d else none

pub from_nanos : ℕ → SimTime
from_nanos n = n

unfoldable pub from_millis : ℕ → Option SimTime
unfolding from_duration
from_millis ms = from_duration (ms * 1_000_000)

unfoldable pub from_secs : ℕ → Option SimTime
unfolding from_duration
from_secs s = from_duration (s * nanos_per_second)

unfoldable pub as_nanos : SimTime → Option ℕ
as_nanos t = to_u64 t

pub as_millis : SimTime → Option ℕ
as_millis t = to_u64 (t / 1_000_000)

unfoldable pub as_secs : SimTime → ℕ
as_secs t = t / nanos_per_second

unfoldable pub duration_since : SimTime → SimTime → Duration
duration_since t earlier = t - earlier

-- The sum saturates as a `Duration`; the check of `from_duration` comes after it.
unfoldable pub time_saturating_add : SimTime → Duration → Option SimTime
unfolding from_duration
time_saturating_add t d = from_duration (min (t + d) duration_max)

unfoldable pub time_saturating_sub : SimTime → Duration → Option SimTime
unfolding from_duration
time_saturating_sub t d = from_duration (t - d)

pub record SimClock : Type 0 where
  pub ticks_per_second : ℕ

-- `NonZeroU32::new(..).expect(..)`.
unfoldable pub clock_new : ℕ → Option SimClock
clock_new n = if n == 0 then none else some (record { ticks_per_second = n })

-- The rounding of `u128::div_ceil`.
abbrev pub div_ceil : ℕ → ℕ → ℕ
div_ceil a b = if a % b == 0 then a / b else a / b + 1

unfoldable pub time_to_tick : SimClock → SimTime → Option Tick
unfolding as_nanos
time_to_tick c t = do
  nanos ← as_nanos t
  to_u64 (div_ceil (nanos * c.ticks_per_second) nanos_per_second)

unfoldable pub tick_to_time : SimClock → Tick → Option SimTime
tick_to_time c t = to_u64 (t * nanos_per_second / c.ticks_per_second)

unfoldable pub secs_to_tick : SimClock → ℕ → Option Tick
unfolding time_to_tick from_secs
secs_to_tick c s = do t ← from_secs s; time_to_tick c t

pub tick_to_secs : SimClock → Tick → Option ℕ
unfolding tick_to_time as_secs
tick_to_secs c t = do u ← tick_to_time c t; some (as_secs u)
