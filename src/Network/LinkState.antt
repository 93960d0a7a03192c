-- ===== src/Network/LinkState.antt =====
-- rust_qsim/src/simulation/network/link.rs: the state of a link, and how it is built.
use parallel_qsim_rust.Prelude.{ℕ, Option, some, ◌>>=◌, List, []}
use parallel_qsim_rust.Time.{Tick, SimClock, clock_new, secs_to_tick}
use parallel_qsim_rust.Float.{F64}
use parallel_qsim_rust.Network.Capacity.{Flowcap, StorageCap, new_flowcap, build}
use parallel_qsim_rust.Network.StuckTimer.{StuckTimer}
use parallel_qsim_rust.Network.StuckTimer

pub data LinkPosition : Type 0 where
  q_start waiting : LinkPosition

pub record VehicleQEntry (V : Type 0) : Type 0 where
  pub vehicle : V
  pub earliest_exit_time : Tick

pub record LocalLink (F V : Type 0) : Type 0 where
  pub id : ℕ
  pub q : List (VehicleQEntry V)
  pub buffer : List V
  pub waiting_list : List V
  pub length : F
  pub free_speed : F
  pub storage_cap : StorageCap F
  pub flow_cap : Flowcap F
  pub stuck_timer : StuckTimer
  pub clock : SimClock
  pub from : ℕ
  pub to : ℕ

-- The fields of the configuration and of a network link (config.rs, scenario/network.rs) that are read here.
pub record QSim (F : Type 0) : Type 0 where
  pub ticks_per_second : ℕ
  pub sample_size : F
  pub stuck_threshold : ℕ

pub record LinkData (F : Type 0) : Type 0 where
  pub id : ℕ
  pub from : ℕ
  pub to : ℕ
  pub length : F
  pub capacity : F
  pub freespeed : F
  pub permlanes : F

module _ {F : Type 0} ⦃f : F64 F⦄ where
  -- `clock.tick_length().as_secs_f64()`.
  unfoldable pub tick_length : SimClock → F
  tick_length c = f.as_secs (f.from_secs (f.div (f.lit 1 0) (f.of_u64 c.ticks_per_second)))

  unfoldable pub secs_to_ticks_floor : SimClock → F → Tick
  secs_to_ticks_floor c seconds = f.floor_u64 (f.mul seconds (f.of_u64 c.ticks_per_second))

  -- `none` if there are no ticks per second, or the threshold has no tick.
  unfoldable pub from_link : {V : Type 0} → LinkData F → F → QSim F → Option (LocalLink F V)
  from_link d effective_cell_size config = do
    clock ← clock_new config.ticks_per_second
    let per_tick =
        f.mul (f.div (f.mul d.capacity config.sample_size) (f.lit 3600 0)) (tick_length clock)
    threshold ← secs_to_tick clock config.stuck_threshold
    some (record {
      id = d.id;
      q = [];
      buffer = [];
      waiting_list = [];
      length = d.length;
      free_speed = d.freespeed;
      storage_cap = build d.length d.permlanes d.capacity config.sample_size effective_cell_size;
      flow_cap = new_flowcap d.capacity config.sample_size per_tick;
      stuck_timer = StuckTimer.new threshold;
      clock = clock;
      from = d.from;
      to = d.to;
    })
