-- ===== src/Engines/Leg/Departure.antt =====
-- leg_engine.rs: the departure of an agent with a vehicle from the garage (scenario/vehicles.rs). `none` is a panic.
use parallel_qsim_rust.Prelude.{ℕ, Bool, true, false, Option, none, some, ◌>>=◌, List, [], ◌∷◌}
use parallel_qsim_rust.Prelude.Maps.{Map, get, contains}
use parallel_qsim_rust.Time.{SimTime}
use parallel_qsim_rust.Float.{Event}
use parallel_qsim_rust.Population.{InternalRoute, generic, network, pt, InternalLeg, as_generic}
use parallel_qsim_rust.Engines.Network.{PartitionEvent}
use parallel_qsim_rust.Engines.Teleportation.{ArrivalEvent}

-- `InternalVehicle` and the part of `Garage` (scenario/vehicles.rs) that departures read.
pub record InternalVehicle (F : Type 0) : Type 0 where
  pub id : ℕ
  pub max_v : F
  pub pce : F
  pub vehicle_type : ℕ

pub record Garage (F : Type 0) : Type 0 where
  pub vehicles : Map (InternalVehicle F)

-- What departures and arrivals need of an agent (agents/mod.rs) and of `SimulationVehicle` (vehicles/mod.rs).
-- `named_vehicle` is `Id::get_from_ext` of the name of a person, `_` and the name of a mode.
pub record LegAgent (F A : Type 0) : Type 0 where
  pub id : A → ℕ
  pub is_on_leg : A → Bool
  pub curr_leg : A → Option (InternalLeg F)
  pub advance_plan : SimTime → A → Option A
  pub named_vehicle : (person mode : ℕ) → Option ℕ

-- `SimulationVehicle::new` with a driver, and `into_agents`, which wants a driver.
pub record LegVehicle (F A V : Type 0) : Type 0 where
  pub new_vehicle : InternalVehicle F → A → List A → V
  pub into_agents : V → Option (List A)

pub data LegEvent (F : Type 0) : Type 0 where
  person_departure : SimTime → (person link mode routing_mode : ℕ) → LegEvent F
  person_enters_vehicle person_leaves_vehicle : SimTime → (person vehicle : ℕ) → LegEvent F
  person_arrival : SimTime → (person link mode : ℕ) → LegEvent F
  vehicle_enters_partition : (vehicle from : ℕ) → SimTime → LegEvent F
  agent_enters_partition : (agent from : ℕ) → SimTime → LegEvent F
  on_network : Event → LegEvent F
  leaves_partition : PartitionEvent → LegEvent F
  teleported : ArrivalEvent F → LegEvent F

abbrev pub is_network : {F : Type 0} → InternalRoute F → Bool
is_network (generic g) = false
is_network (network g route) = true
is_network (pt g line route) = false

-- `assert!`.
abbrev pub assert : Bool → Option (Unit {0})
assert true = some tt
assert false = none

module _ {F A V : Type 0} ⦃w : LegVehicle F A V⦄ where
  unfoldable pub unpark_veh_with_passengers : Garage F → A → List A → ℕ → Option V
  unpark_veh_with_passengers garage agent passengers id = do
    vehicle ← get id garage.vehicles
    some (w.new_vehicle vehicle agent passengers)

  unfoldable pub unpark_veh : Garage F → A → ℕ → Option V
  unfolding unpark_veh_with_passengers
  unpark_veh garage agent id = unpark_veh_with_passengers garage agent [] id

module _ {F A : Type 0} ⦃l : LegAgent F A⦄ where
  -- The vehicle of the route, or the person's own for the mode.
  unfoldable pub vehicle_of : A → InternalLeg F → InternalRoute F → Option ℕ
  vehicle_of agent leg route = elim (as_generic route).vehicle [
    | some id ↦ some id
    | none ↦ l.named_vehicle (l.id agent) leg.mode
  ]

  -- A main mode wants a network route.
  unfoldable pub enter_main_mode :
      List ℕ → SimTime → A → InternalLeg F → InternalRoute F → ℕ → Option (List (LegEvent F))
  enter_main_mode main_modes now agent leg route veh_id = elim (contains leg.mode main_modes) [
    | true ↦ do
      _ ← assert (is_network route)
      some (person_enters_vehicle now (l.id agent) veh_id ∷ [])
    | false ↦ some []
  ]

module _ {F A V : Type 0} ⦃l : LegAgent F A⦄ ⦃w : LegVehicle F A V⦄ where
  unfoldable pub handle_departure : List ℕ → Garage F → SimTime → A → Option (V × List (LegEvent F))
  unfolding vehicle_of enter_main_mode unpark_veh
  handle_departure main_modes garage now agent = do
    _ ← assert (l.is_on_leg agent)
    leg ← l.curr_leg agent
    route ← leg.route
    routing_mode ← leg.routing_mode
    veh_id ← vehicle_of agent leg route
    entered ← enter_main_mode main_modes now agent leg route veh_id
    vehicle ← unpark_veh garage agent veh_id
    some (
      vehicle,
      person_departure now (l.id agent) (as_generic route).start_link leg.mode routing_mode
          ∷ entered,
    )
