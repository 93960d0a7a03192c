-- ===== src/Network/Tests.antt =====
-- Small links and partitions under rust_qsim/src/simulation/network/: `f64` is a number of meters,
-- vehicles or seconds here, and a vehicle knows the links that it has left to drive.
pub mod LinkRuns
pub mod PartitionRuns
pub mod NodeRuns
mod SpecialNumbers
use parallel_qsim_rust.Prelude.{
  ℕ, zero, suc, ◌+◌, ◌-◌, ◌*◌, ◌/◌, Bool, true, false, ltb, leb, if◌then◌else◌, ◌==◌, Option, none,
  some, List, [], ◌∷◌,
}
use parallel_qsim_rust.Time.{SimClock}
use parallel_qsim_rust.Float.{F64, Vehicle}
use parallel_qsim_rust.Network.LinkState.{LocalLink, VehicleQEntry}

instance abbrev pub whole_numbers : F64 ℕ
whole_numbers = record {
  lit = λ m e. if e == 0 then m else 0;
  add = λ a b. a + b;
  sub = λ a b. a - b;
  mul = λ a b. a * b;
  div = λ a b. a / b;
  neg = λ a. 0;
  fmin = λ a b. if ltb b a then b else a;
  fmax = λ a b. if ltb a b then b else a;
  lt = ltb;
  eq = λ a b. a == b;
  of_u64 = λ n. n;
  floor_u64 = λ a. a;
  as_secs = λ nanos. nanos / 1_000_000_000;
  from_secs = λ s. s * 1_000_000_000;
}

pub record Car : Type 0 where
  pub number : ℕ
  pub route : List ℕ

abbrev pub first : List ℕ → Option ℕ
first [] = none
first (x ∷ xs) = some x

abbrev pub rest : List ℕ → List ℕ
rest [] = []
rest (x ∷ xs) = xs

abbrev pub is_last : List ℕ → Bool
is_last [] = false
is_last (x ∷ []) = true
is_last (x ∷ y ∷ xs) = false

instance abbrev pub cars : Vehicle ℕ Car
cars = record {
  id = λ c. c.number;
  max_v = λ c. 10;
  pce = λ c. 1;
  person = λ c. c.number;
  mode = λ c. 0;
  is_wanting_to_arrive_on_current_link = λ c. is_last c.route;
  curr_link_id = λ c. first c.route;
  peek_next_route_element = λ c. first (rest c.route);
  left_link = λ c time. record c { route = rest c.route };
}

abbrev pub arriving : Car
arriving = record { number = 7; route = 1 ∷ [] }

abbrev pub passing : Car
passing = record { number = 8; route = 1 ∷ 2 ∷ [] }

abbrev pub starting : Car
starting = record { number = 9; route = 1 ∷ 2 ∷ [] }

abbrev pub seconds : SimClock
seconds = record { ticks_per_second = 1 }

-- Link 1 with two vehicles in its queue and one that waits.
abbrev pub busy : LocalLink ℕ Car
busy = record {
  id = 1;
  q =
      record { vehicle = arriving; earliest_exit_time = 3 }
      ∷ record { vehicle = passing; earliest_exit_time = 9 }
      ∷ [];
  buffer = [];
  waiting_list = starting ∷ [];
  length = 100;
  free_speed = 20;
  storage_cap = record { max = 5; used = 2 };
  flow_cap = record {
    last_update_time = 0;
    remaining_capacity = 1;
    capacity_per_second = 1;
    capacity_per_tick = 1;
  };
  stuck_timer = record { timer_started = none; stuck_threshold = 30 };
  clock = seconds;
  from = 100;
  to = 101;
}

-- Link 1 with a vehicle in its buffer.
abbrev pub offering : LocalLink ℕ Car
offering = record busy { q = []; waiting_list = []; buffer = passing ∷ [] }

-- Link 2, on which nobody is.
abbrev pub quiet : LocalLink ℕ Car
quiet = record busy { id = 2; q = []; waiting_list = []; from = 101; to = 102 }
