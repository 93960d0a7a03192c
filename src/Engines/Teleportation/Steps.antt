-- ===== src/Engines/Teleportation/Steps.antt =====
-- rust_qsim/src/simulation/engines/teleportation_engine.rs: which vehicles the engine keeps, sends and releases.
use parallel_qsim_rust.Prelude.{
  ℕ, ◌+◌, ◌≡◌, ◌<◌, refl, sym, ap, ◌∙◌, subst, false, ◌==◌, if◌then◌else◌, some, List, [], ◌∷◌,
  ◌++◌, map, length, All, arith, inl, inr, ◌⊎◌, Bool-cases, u64_mod,
}
use parallel_qsim_rust.Time.{Tick, SimTime, tick_to_time}
use parallel_qsim_rust.Float.{Vehicle}
use parallel_qsim_rust.TimeQueue
use parallel_qsim_rust.TimeQueue.Schedule.{enqueue, due, later}
use parallel_qsim_rust.TimeQueue.Refinement.{view, IsFresh, view-add, view-pop}
use parallel_qsim_rust.Population.{InternalRoute, InternalLeg, as_generic}
use parallel_qsim_rust.Messaging.Broker.{NetMessageBroker, rank_for_link}
use parallel_qsim_rust.Messaging.Outbox.{vehicles_for, add_veh-vehicles_for}
use parallel_qsim_rust.Engines.Activity.Queues.{AllOf, AllOf-due}
use parallel_qsim_rust.Engines.Network.{Passengers, PartitionEvent, emit_partition_leave_events}
use parallel_qsim_rust.Engines.Teleportation.{
  Teleported, IdStore, ArrivalEvent, TeleportingVehicle, arrival_end_time, TeleportationEngine,
  is_local_route, build, enqueue_local, send_remote, receive_vehicle, emit_travelled, emit_all,
  do_step,
}

module _ (F : Type 0) {V : Type 0} ⦃v : Vehicle F V⦄ ⦃t : Teleported F V⦄ ⦃ids : IdStore⦄ where
  -- The arrival of the vehicle can be published.
  abbrev pub CanArrive : SimTime → TeleportingVehicle V → Type 0
  CanArrive now y = (event : ArrivalEvent F) × (emit_travelled now y.vehicle ≡ some event)

module _ {F V : Type 0} ⦃v : Vehicle F V⦄ ⦃t : Teleported F V⦄ ⦃ids : IdStore⦄ where
  emit_all_total :
      (now : SimTime) (ys : List (TeleportingVehicle V))
      → All (CanArrive F now) ys
      → (events : List (ArrivalEvent F)) × (emit_all now ys ≡ some events)
        × (length events ≡ length ys)
  unfolding emit_all
  emit_all_total now [] _ = ([], refl, refl)
  emit_all_total now (y ∷ ys) ((event, e), hs) =
      let (events, done, same) = emit_all_total now ys hs in
      (event ∷ events, rw e (rw done refl), omega (arith, same))

  -- At a tick that has a time, where the arrival of every vehicle in the queue can be published, a step releases exactly the
  -- vehicles whose arrival time is reached, earliest first and first come first served, publishes an event for each, and
  -- keeps the others as they are.
  pub do_step-due :
      (now : Tick) (e : TeleportationEngine V) {time : SimTime}
      → tick_to_time e.clock now ≡ some time
      → AllOf (CanArrive F time) (view e.queue.q)
      → (e' : TeleportationEngine V) × (events : List (ArrivalEvent F)) × (do_step now e
          ≡ some (map (λ y. y.vehicle) (due time (view e.queue.q)), e', events))
        × (view e'.queue.q ≡ later time (view e.queue.q))
        × (length events ≡ length (due time (view e.queue.q)))
  unfolding do_step
  do_step-due now e {time} clocked all =
      let (taken, left, _) = view-pop time e.queue in
      let (arrived, q) = TimeQueue.pop time e.queue in
      let can = (AllOf-due (CanArrive F time) time (view e.queue.q) all).0 in
      let (events, done, same) =
        emit_all_total time arrived (subst (All (CanArrive F time)) (sym taken) can) in
      (
        record e { queue = q },
        events,
        rw clocked (
            rw done
              (ap (λ ys. some (map (λ y. y.vehicle) ys, record e { queue = q }, events)) taken)),
        left,
        same ∙ ap length taken,
      )

module _ {F V : Type 0} ⦃v : Vehicle F V⦄ ⦃t : Teleported F V⦄ ⦃ps : Passengers V⦄ where
  -- A vehicle that can be teleported at `time`: behind its start it is `x'`, on the link at the end of its route.
  pub record IsTeleported (x x' : V) (time arrival : SimTime) (to : ℕ) (b : NetMessageBroker F V)
      : Type 0 where
    pub leg : InternalLeg F
    pub route : InternalRoute F
    pub started : t.teleportation_started time x ≡ some x'
    pub on_leg : t.curr_leg x' ≡ some leg
    pub routed : leg.route ≡ some route
    pub known : rank_for_link (as_generic route).end_link b ≡ some to
    pub at_end : v.curr_link_id x' ≡ some (as_generic route).end_link
    pub arrives : t.end_time x' time ≡ some arrival

  -- A vehicle that can be teleported at a tick that has a time, to the partition `to`. If this is the
  -- broker's own, the vehicle is put into the queue at its arrival time, behind all that arrive no later, and the
  -- broker stays as it is. If it is another, the queue stays as it is and the vehicle is added behind those that wait
  -- for `to`, and for no other partition.
  pub receive_vehicle-enqueue :
      (now : Tick) (x : V) (e : TeleportationEngine V) (b : NetMessageBroker F V) {x' : V}
      {time arrival : SimTime} {to : ℕ}
      → tick_to_time e.clock now ≡ some time
      → IsTeleported x x' time arrival to b
      → IsFresh e.queue
      → e.queue.counter + 1 < u64_mod
      → (e' : TeleportationEngine V) × (b' : NetMessageBroker F V) × (events : List PartitionEvent)
        × (receive_vehicle now x e b ≡ some (e', b', events))
        × (((b.rank ≡ to)
              × (view e'.queue.q
                  ≡ enqueue arrival
                      (record { vehicle = x'; arrival_time = arrival })
                      (view e.queue.q))
              × (b' ≡ b))
            ⊎ ((b.rank == to ≡ false)
                × (e' ≡ e)
                × ((k : ℕ)
                    → vehicles_for k b'
                      ≡ (if to == k then vehicles_for k b ++ x' ∷ [] else vehicles_for k b))))
  unfolding receive_vehicle is_local_route enqueue_local send_remote build
  receive_vehicle-enqueue now x e b {x'} {time} {arrival} {to} clocked h fresh fits =
      let y : TeleportingVehicle V = record { vehicle = x'; arrival_time = arrival } in
      let (b', added, placed) = add_veh-vehicles_for x' now b h.at_end h.known in
      elim (Bool-cases (b.rank == to)) [
        | inl here ↦ (
          record e { queue = TimeQueue.add y time e.queue },
          b,
          [],
          ground (arith, clocked, h.started, h.on_leg, h.routed, h.known, here, h.arrives),
          inl (ground (arith, here), (view-add y time e.queue fresh fits).0, refl),
        )
        | inr there ↦ (
          e,
          b',
          emit_partition_leave_events F x' to time,
          ground (arith, clocked, h.started, h.on_leg, h.routed, h.known, there, h.at_end, added),
          inr (there, refl, placed),
        )
      ]
