-- ===== src/Network/Link.antt =====
-- rust_qsim/src/simulation/network/link.rs: the operations of a link that a partition owns whole.
-- A `VecDeque` is a list with its front first. Published events are part of a result, and so is the
-- link, which an offer changes through the `Cell` of its stuck timer.
pub mod Moves
pub mod Step
pub mod Split
pub mod Laws
pub mod Serving
use parallel_qsim_rust.Prelude.{
  ℕ, Bool, true, false, not, ◌||◌, ltb, leb, if◌then◌else◌, Option, none, some, ◌>>=◌, List, [],
  ◌∷◌, ◌++◌, map,
}
use parallel_qsim_rust.Time.{Tick, SimTime, tick_next, tick_saturating_add, tick_to_time}
use parallel_qsim_rust.Float.{
  F64, gt, sum_from, Vehicle, Event, vehicle_enters_traffic, vehicle_leaves_traffic,
}
use parallel_qsim_rust.Network.Capacity.{
  Flowcap, StorageCap, update_capacity, has_capacity_left, consume_flow, consume, release,
  is_available,
}
use parallel_qsim_rust.Network.StuckTimer
use parallel_qsim_rust.Network.LinkState.{
  LinkPosition, q_start, waiting, VehicleQEntry, LocalLink, secs_to_ticks_floor,
}

abbrev pub is_empty : {A : Type 0} → List A → Bool
is_empty [] = true
is_empty (x ∷ xs) = false

abbrev pub is_some : {A : Type 0} → Option A → Bool
is_some none = false
is_some (some a) = true

-- What one step of a link yields.
pub record SimStep (F V : Type 0) : Type 0 where
  pub ending_vehicles : List V
  pub link : LocalLink F V
  pub events : List Event

module _ {F V : Type 0} ⦃f : F64 F⦄ ⦃v : Vehicle F V⦄ where
  -- When a vehicle that enters at `now` may leave at the earliest.
  unfoldable pub exit_time : V → Tick → LocalLink F V → Tick
  unfolding secs_to_ticks_floor tick_saturating_add
  exit_time x now l =
      let speed = f.fmin l.free_speed (v.max_v x) in
      tick_saturating_add now (secs_to_ticks_floor l.clock (f.div l.length speed))

  unfoldable pub push_veh_to_queue : V → Tick → LocalLink F V → LocalLink F V
  push_veh_to_queue x now l = record l {
    storage_cap = consume (v.pce x) l.storage_cap;
    q = l.q ++ record { vehicle = x; earliest_exit_time = exit_time x now l } ∷ [];
  }

  unfoldable pub push_veh_to_waiting_list : V → LocalLink F V → LocalLink F V
  push_veh_to_waiting_list x l = record l { waiting_list = l.waiting_list ++ x ∷ [] }

  unfoldable pub push_veh : V → Tick → LinkPosition → LocalLink F V → LocalLink F V
  unfolding push_veh_to_queue push_veh_to_waiting_list
  push_veh x now q_start l = push_veh_to_queue x now l
  push_veh x now waiting l = push_veh_to_waiting_list x l

  unfoldable pub has_flow_capacity_left : LocalLink F V → Bool
  unfolding sum_from
  has_flow_capacity_left l =
      gt (f.sub l.flow_cap.remaining_capacity (sum_from (f.lit 0 0) (map v.pce l.buffer)))
        (f.lit 0 0)

  abbrev pub release_from_queue : V → LocalLink F V → LocalLink F V
  release_from_queue x l = record l { storage_cap = release (v.pce x) l.storage_cap }

  abbrev pub push_to_buffer : V → LocalLink F V → LocalLink F V
  push_to_buffer x l = record l { buffer = l.buffer ++ x ∷ [] }

  -- The loop of `add_queue_to_buffer` over the entries still in the queue: the vehicles that end
  -- their leg, and the link.
  unfoldable pub queue_loop : Tick → List (VehicleQEntry V) → LocalLink F V → List V × LocalLink F V
  queue_loop now [] l = ([], record l { q = [] })
  queue_loop now (e ∷ q) l =
      let x = e.vehicle in
      let stop : List V × LocalLink F V = ([], record l { q = e ∷ q }) in
      let gone = queue_loop now q (release_from_queue x l) in
      let next = queue_loop now q (push_to_buffer x (release_from_queue x l)) in
      if not (leb e.earliest_exit_time now)
      then stop
      else if v.is_wanting_to_arrive_on_current_link x
      then (x ∷ gone.0, gone.1)
      else if has_flow_capacity_left l
      then next
      else stop

  unfoldable pub add_queue_to_buffer : Tick → LocalLink F V → List V × LocalLink F V
  unfolding queue_loop
  add_queue_to_buffer now l = queue_loop now l.q l

  abbrev pub enters_traffic : LocalLink F V → SimTime → V → Event
  enters_traffic l time x = vehicle_enters_traffic (v.id x) l.id (v.person x) time (v.mode x)

  abbrev pub leaves_traffic : LocalLink F V → SimTime → V → Event
  leaves_traffic l time x = vehicle_leaves_traffic (v.id x) l.id (v.person x) time (v.mode x)

  -- The loop of `add_waiting_to_buffer`; the last part of the result is what `pop_from_waiting` publishes.
  unfoldable pub waiting_loop :
      SimTime → List V → LocalLink F V → List V × LocalLink F V × List Event
  waiting_loop time [] l = ([], record l { waiting_list = [] }, [])
  waiting_loop time (x ∷ w) l =
      let gone = waiting_loop time w l in
      let next = waiting_loop time w (push_to_buffer x l) in
      if v.is_wanting_to_arrive_on_current_link x
      then (x ∷ gone.0, gone.1, enters_traffic l time x ∷ gone.2)
      else if has_flow_capacity_left l
      then (next.0, next.1, enters_traffic l time x ∷ next.2)
      else ([], record l { waiting_list = x ∷ w }, [])

  unfoldable pub add_waiting_to_buffer :
      SimTime → LocalLink F V → List V × LocalLink F V × List Event
  unfolding waiting_loop
  add_waiting_to_buffer time l = waiting_loop time l.waiting_list l

  -- One simulation step of the link. `none` if `now` has no time.
  unfoldable pub do_sim_step : Tick → LocalLink F V → Option (SimStep F V)
  unfolding add_waiting_to_buffer add_queue_to_buffer tick_to_time
  do_sim_step now l = do
    time ← tick_to_time l.clock now
    let updated = record l { flow_cap = update_capacity time l.flow_cap }
    let (from_waiting, l₁, entered) = add_waiting_to_buffer time updated
    let (from_queue, l₂) = add_queue_to_buffer now l₁
    let ending = from_waiting ++ from_queue
    some (record {
      ending_vehicles = ending;
      link = l₂;
      events = entered ++ map (leaves_traffic l₂ time) ending;
    })

  abbrev pub offer : Tick → List V → LocalLink F V → Option V × LocalLink F V
  offer now [] l = (none, l)
  offer now (x ∷ b) l =
      if has_capacity_left l.flow_cap
      then (some x, record l { stuck_timer = StuckTimer.start now l.stuck_timer })
      else (none, l)

  -- The vehicle at the front of the buffer, if the flow capacity allows it to leave. An offer
  -- starts the stuck timer.
  unfoldable pub offers_veh : Tick → LocalLink F V → Option V × LocalLink F V
  offers_veh now l = offer now l.buffer l

  abbrev pub pop : List V → LocalLink F V → Option V × LocalLink F V
  pop [] l = (none, l)
  pop (x ∷ b) l = (
    some x,
    record l {
      buffer = b;
      flow_cap = consume_flow (v.pce x) l.flow_cap;
      stuck_timer = StuckTimer.reset l.stuck_timer;
    },
  )

  unfoldable pub pop_veh : LocalLink F V → Option V × LocalLink F V
  pop_veh l = pop l.buffer l

  -- All vehicles of the link, and the link without them.
  unfoldable pub drain : LocalLink F V → List V × LocalLink F V
  drain l = (
    map (λ e. e.vehicle) l.q ++ (l.buffer ++ l.waiting_list),
    record l { q = []; buffer = []; waiting_list = [] },
  )

  unfoldable pub is_active : LocalLink F V → Bool
  is_active l = not (is_empty l.q) || not (is_empty l.waiting_list) || not (is_empty l.buffer)

  -- Whether the link offers a vehicle at the next tick; asking may start the stuck timer.
  unfoldable pub to_nodes_active : Tick → LocalLink F V → Bool × LocalLink F V
  unfolding offers_veh tick_next
  to_nodes_active now l = let (x, l') = offers_veh (tick_next now) l in (is_some x, l')
