-- ===== src/Time/Bounds.antt =====
-- When the conversions of rust_qsim/src/simulation/time/mod.rs succeed, and that they keep order.
use parallel_qsim_rust.Prelude.{
  ◌+◌, ◌*◌, ◌≤◌, ◌<◌, ◌≡◌, none, some, arith, if◌then◌else◌, leb, u64_mod, u64_max,
}
use parallel_qsim_rust.Time.{
  SimClock, SimTime, Duration, Tick, nanos_per_second, div_ceil, time_to_tick, time_saturating_add,
  time_saturating_sub, duration_since,
}

-- At a rate of at most 10^9 ticks per second every time of the program has a tick, and the tick
-- is no larger than the time.
pub time_to_tick_total :
    (c : SimClock) (t : SimTime)
    → c.ticks_per_second ≤ nanos_per_second
    → t < u64_mod
    → (k : Tick) × (time_to_tick c t ≡ some k) × (k ≤ t)
unfolding time_to_tick
time_to_tick_total c t le fits =
    let p = c.ticks_per_second in
    let prod : t * p ≤ t * nanos_per_second = grind arith in
    (div_ceil (t * p) nanos_per_second, ground arith, ground arith)

-- Later times have no earlier ticks.
pub time_to_tick_mono :
    (c : SimClock) (s t : SimTime) {j k : Tick}
    → time_to_tick c s ≡ some j
    → time_to_tick c t ≡ some k
    → s ≤ t
    → j ≤ k
unfolding time_to_tick
time_to_tick_mono c s t {j} {k} e f h =
    let p = c.ticks_per_second in let prod : s * p ≤ t * p = grind arith in ground arith

-- `SimTime::saturating_add` does not saturate: it gives the exact sum if that fits in a `u64`, and
-- panics for every larger sum.
pub time_saturating_add_exact :
    (t : SimTime) (d : Duration)
    → time_saturating_add t d ≡ (if leb (t + d) u64_max then some (t + d) else none)
unfolding time_saturating_add
time_saturating_add_exact t d = ground arith

-- On times of the program, `saturating_sub` never panics, and adding the duration since an earlier time to
-- that time gives the later time back.
pub time_saturating_add-duration_since :
    (t earlier : SimTime)
    → t ≤ u64_max
    → earlier ≤ t
    → (time_saturating_add earlier (duration_since t earlier) ≡ some t)
      × (time_saturating_sub t (duration_since t earlier) ≡ some earlier)
unfolding time_saturating_add time_saturating_sub duration_since
time_saturating_add-duration_since t earlier fits h = ground arith
