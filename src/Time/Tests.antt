-- ===== src/Time/Tests.antt =====
-- Runs of rust_qsim/src/simulation/time/mod.rs on small inputs.
use parallel_qsim_rust.Prelude.{
  ◌≡◌, refl, ◌≤◌, ◌<◌, ◌+◌, ◌*◌, some, none, if◌then◌else◌, leb, arith, u64_max,
}
use parallel_qsim_rust.Time.{
  SimClock, Tick, nanos_per_second, time_to_tick, tick_to_time, time_saturating_add,
  time_saturating_sub, duration_since,
}
use parallel_qsim_rust.Time.Bounds.{
  time_to_tick_total, time_to_tick_mono, time_saturating_add_exact,
  time_saturating_add-duration_since,
}
use parallel_qsim_rust.Time.Rounding.{tick_to_time-time_to_tick, time_to_tick-tick_to_time}
use parallel_qsim_rust.Time.RoundTrip.{
  parse-format_hh_mm_ss_trimmed, parse_decimal_seconds-format_decimal_seconds,
}
use parallel_qsim_rust.Time.Text.{
  codes, scan, parse_u64, zeros, display_padded, split_once, trim_zeros,
}
use parallel_qsim_rust.Time.Format.{
  ok, err, invalid_seconds, parse, parse_decimal_seconds, format_decimal_seconds,
  format_hh_mm_ss_trimmed,
}

format_run : format_hh_mm_ss_trimmed 3723_450000000 ≡ codes "01:02:03.45"
unfolding format_hh_mm_ss_trimmed display_padded trim_zeros
format_run = refl

parse_run : parse (codes "+1:2:03.45") ≡ ok 3723_450000000
unfolding parse parse_u64 scan split_once zeros
parse_run = refl

decimal_run : parse_decimal_seconds (codes "12.3456789012") ≡ ok 12_345678901
unfolding parse_decimal_seconds parse_u64 scan split_once zeros
decimal_run = refl

sign_run : parse_decimal_seconds (codes "-1") ≡ err invalid_seconds
unfolding parse_decimal_seconds parse_u64 scan split_once
sign_run = refl

abbrev tenths : SimClock
tenths = record { ticks_per_second = 10 }

half_past_tick : time_to_tick tenths 1_550_000_000 ≡ some 16
unfolding time_to_tick
half_past_tick = refl

one_tick : time_to_tick tenths 1_200_000_000 ≡ some 12
unfolding time_to_tick
one_tick = refl

tick_time : tick_to_time tenths 16 ≡ some 1_600_000_000
unfolding tick_to_time
tick_time = refl

tick_to_time-time_to_tick_example :
    (1_550_000_000 ≤ 1_600_000_000) × (1_600_000_000 * 10 < 1_550_000_000 * 10 + nanos_per_second)
tick_to_time-time_to_tick_example =
    tick_to_time-time_to_tick tenths 1_550_000_000 (omega arith) half_past_tick tick_time

time_to_tick-tick_to_time_example : time_to_tick tenths 1_600_000_000 ≡ some 16
time_to_tick-tick_to_time_example =
    time_to_tick-tick_to_time tenths 16 (omega arith) (omega arith) (omega arith) tick_time

time_to_tick_total_example :
    (k : Tick) × (time_to_tick tenths 1_550_000_000 ≡ some k) × (k ≤ 1_550_000_000)
time_to_tick_total_example = time_to_tick_total tenths 1_550_000_000 (omega arith) (omega arith)

time_to_tick_mono_example : 12 ≤ 16
time_to_tick_mono_example =
    time_to_tick_mono tenths 1_200_000_000 1_550_000_000 one_tick half_past_tick (omega arith)

time_saturating_add_exact_example :
    time_saturating_add u64_max 1 ≡ (if leb (u64_max + 1) u64_max then some (u64_max + 1) else none)
time_saturating_add_exact_example = time_saturating_add_exact u64_max 1

time_saturating_add-duration_since_example :
    (time_saturating_add 5 (duration_since 9 5) ≡ some 9)
    × (time_saturating_sub 9 (duration_since 9 5) ≡ some 5)
time_saturating_add-duration_since_example =
    time_saturating_add-duration_since 9 5 (omega arith) (omega arith)

parse-format_hh_mm_ss_trimmed_example :
    parse (format_hh_mm_ss_trimmed 3723_450000000) ≡ ok 3723_450000000
parse-format_hh_mm_ss_trimmed_example = parse-format_hh_mm_ss_trimmed 3723_450000000 (omega arith)

parse_decimal_seconds-format_decimal_seconds_example :
    parse_decimal_seconds (format_decimal_seconds 3723_450000000) ≡ ok 3723_450000000
parse_decimal_seconds-format_decimal_seconds_example =
    parse_decimal_seconds-format_decimal_seconds 3723_450000000 (omega arith)
