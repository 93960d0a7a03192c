-- ===== src/Float.antt =====
-- `f64` and the vehicles of the network, as the code under rust_qsim/src/simulation/network uses them.
-- The operations of `f64` and of `Duration` are those of the Rust standard library; they are parameters,
-- and the theorems hold for every choice of them but where they name a law.
use parallel_qsim_rust.Prelude.{ℕ, Bool, List, [], ◌∷◌, Option}
use parallel_qsim_rust.Time.{SimTime}

pub record F64 (F : Type 0) : Type 0 where
  -- `lit m e` is the literal m * 10^-e.
  pub lit : ℕ → ℕ → F
  pub add : F → F → F
  pub sub : F → F → F
  pub mul : F → F → F
  pub div : F → F → F
  pub neg : F → F
  pub fmin : F → F → F
  pub fmax : F → F → F
  pub lt : F → F → Bool
  pub eq : F → F → Bool
  -- `x as f64` and `x.floor().max(0.0) as u64`.
  pub of_u64 : ℕ → F
  pub floor_u64 : F → ℕ
  -- `Duration::as_secs_f64` and `Duration::from_secs_f64`, over nanoseconds.
  pub as_secs : ℕ → F
  pub from_secs : F → ℕ

-- What the links need of `SimulationVehicle` (vehicles/mod.rs) and of its driver (agents/mod.rs).
pub record Vehicle (F V : Type 0) : Type 0 where
  pub id : V → ℕ
  pub max_v : V → F
  pub pce : V → F
  pub person : V → ℕ
  pub mode : V → ℕ
  pub is_wanting_to_arrive_on_current_link : V → Bool
  pub curr_link_id : V → Option ℕ
  pub peek_next_route_element : V → Option ℕ
  -- `notify_event(&mut AgentEvent::LeftLink(), now)`.
  pub left_link : V → SimTime → V

-- The events that the network publishes (events/mod.rs).
pub data Event : Type 0 where
  vehicle_enters_traffic : (vehicle link person : ℕ) → SimTime → (mode : ℕ) → Event
  vehicle_leaves_traffic : (vehicle link person : ℕ) → SimTime → (mode : ℕ) → Event
  link_enter : SimTime → (link vehicle : ℕ) → Event
  link_leave : (vehicle link : ℕ) → SimTime → Event

-- `sum::<f64>()` adds from the left, starting at -0.0 or 0.0 as the library does.
module _ {F : Type 0} ⦃f : F64 F⦄ where
  abbrev pub gt : F → F → Bool
  gt a b = f.lt b a

  unfoldable pub sum_from : F → List F → F
  sum_from acc [] = acc
  sum_from acc (x ∷ xs) = sum_from (f.add acc x) xs
