-- ===== src/Network/StuckTimer.antt =====
-- rust_qsim/src/simulation/network/stuck_timer.rs. The `Cell` is a field of the state.
use parallel_qsim_rust.Prelude.{
  ◌+◌, ◌≤◌, ◌<◌, ◌≡◌, refl, Option, none, some, Bool, true, false, leb, arith, u64_mod, ◌↔◌,
}
use parallel_qsim_rust.Time.{Tick, tick_sub}

pub record StuckTimer : Type 0 where
  pub timer_started : Option Tick
  pub stuck_threshold : Tick

unfoldable pub new : Tick → StuckTimer
new threshold = record { timer_started = none; stuck_threshold = threshold }

abbrev pub or_else : Option Tick → Tick → Option Tick
or_else none now = some now
or_else (some t) now = some t

-- A timer that runs keeps its start.
unfoldable pub start : Tick → StuckTimer → StuckTimer
start now s = record s { timer_started = or_else s.timer_started now }

unfoldable pub reset : StuckTimer → StuckTimer
reset s = record s { timer_started = none }

abbrev pub elapsed_at_least : Option Tick → Tick → Tick → Bool
elapsed_at_least none now threshold = false
elapsed_at_least (some t) now threshold = leb threshold (tick_sub now t)

unfoldable pub is_stuck : Tick → StuckTimer → Bool
is_stuck now s = elapsed_at_least s.timer_started now s.stuck_threshold

-- A vehicle that was first offered at `t` and again at any later ticks is stuck exactly from
-- `stuck_threshold` ticks after `t` on; the later offers do not matter.
pub is_stuck-start :
    (s : StuckTimer) (t u now : Tick)
    → t ≤ now
    → now < u64_mod
    → (is_stuck now (start u (start t (reset s))) ≡ true) ↔ (t + s.stuck_threshold ≤ now)
unfolding is_stuck start reset tick_sub
is_stuck-start s t u now le fits = ground arith

-- A reset timer is not stuck at any tick.
pub is_stuck-reset : (s : StuckTimer) (now : Tick) → is_stuck now (reset s) ≡ false
unfolding is_stuck reset
is_stuck-reset s now = refl
