-- ===== src/Engines/Leg/Conserve.antt =====
-- leg_engine.rs: no vehicle that is passed on is lost or doubled.
use parallel_qsim_rust.Prelude.{
  ℕ, ◌+◌, ◌≡◌, ◌<◌, refl, sym, subst, ◌⊎◌, inl, inr, Bool, true, false, Bool-cases, ◌==◌,
  if◌then◌else◌, none, some, List, [], ◌∷◌, ◌++◌, map, SameItems, count_if, count_if-append, arith,
  u64_mod,
}
use parallel_qsim_rust.Prelude.Maps.{get, contains}
use parallel_qsim_rust.Time.{Tick, SimTime, tick_to_time}
use parallel_qsim_rust.Float.{F64, Vehicle}
use parallel_qsim_rust.TimeQueue
use parallel_qsim_rust.TimeQueue.{Entry}
use parallel_qsim_rust.Population.{InternalRoute, InternalLeg, as_generic}
use parallel_qsim_rust.Network.Link.Split
use parallel_qsim_rust.Network.Link.Split.{SimLink}
use parallel_qsim_rust.Network.SimNetwork.{start_position}
use parallel_qsim_rust.Network.SimNetwork.Vehicles.{on_links}
use parallel_qsim_rust.Network.SimNetwork.Invariant.{IsValid}
use parallel_qsim_rust.Network.SimNetwork.Entering.{send_veh_en_route-IsEntered}
use parallel_qsim_rust.Messaging.Broker.{rank_for_link}
use parallel_qsim_rust.Engines.Network
use parallel_qsim_rust.Engines.Network.{Passengers, emit_partition_leave_events}
use parallel_qsim_rust.Engines.Network.Outgoing.{waiting, is_known, add_veh-waiting}
use parallel_qsim_rust.Engines.Teleportation
use parallel_qsim_rust.Engines.Teleportation.{
  Teleported, TeleportingVehicle, arrival_end_time, TeleportationEngine, is_local_route, build,
  enqueue_local, send_remote,
}
use parallel_qsim_rust.Engines.Teleportation.Steps.{IsTeleported}
use parallel_qsim_rust.Engines.Leg.Departure.{
  InternalVehicle, LegAgent, LegVehicle, LegEvent, person_departure, person_enters_vehicle,
  on_network, leaves_partition, is_network, vehicle_of, handle_departure, enter_main_mode,
  unpark_veh,
}
use parallel_qsim_rust.Engines.Leg.Passing.{
  LegEngine, is_driven, to_network, to_teleportation, pass_vehicle_to_engine, receive_agent,
}

module _ {V : Type 0} where
  unfoldable pub queued : List (Entry (TeleportingVehicle V)) → List V
  queued [] = []
  queued (x ∷ xs) = x.value.vehicle ∷ queued xs

  held-grown :
      (p : V → Bool) (x : V) (us bs cs us' : List V)
      → SameItems us' (x ∷ us)
      → count_if p (us' ++ (bs ++ cs)) ≡ count_if p (x ∷ (us ++ (bs ++ cs)))
  held-grown p x us bs cs us' same =
      ground (arith, same p, count_if-append p us' (bs ++ cs), count_if-append p us (bs ++ cs))

  held-queued :
      (p : V → Bool) (x : V) (us bs cs : List V)
      → count_if p (us ++ ((x ∷ bs) ++ cs)) ≡ count_if p (x ∷ (us ++ (bs ++ cs)))
  held-queued p x us bs cs =
      ground (arith, count_if-append p us ((x ∷ bs) ++ cs), count_if-append p us (bs ++ cs))

  held-sent :
      (p : V → Bool) (x : V) (us bs cs cs' : List V)
      → count_if p cs' ≡ count_if p (x ∷ cs)
      → count_if p (us ++ (bs ++ cs')) ≡ count_if p (x ∷ (us ++ (bs ++ cs)))
  held-sent p x us bs cs cs' same = ground (
    arith,
    same,
    count_if-append p us (bs ++ cs'),
    count_if-append p us (bs ++ cs),
    count_if-append p bs cs',
    count_if-append p bs cs,
  )

out_refuses :
    {F V : Type 0} ⦃f : F64 F⦄ ⦃v : Vehicle F V⦄ (x : V) (now : Tick) (o : Split.SplitOutLink F V)
    → Split.push_veh x (start_position true) now (Split.out o) ≡ none
unfolding Split.push_veh Split.push_out
out_refuses x now o = refl

module _ {F V R : Type 0} ⦃f : F64 F⦄ ⦃v : Vehicle F V⦄ where
  -- All vehicles of the engine: on the links, on their way by teleportation, and in the messages to be sent.
  abbrev pub held : LegEngine F V R → List V
  held e =
      on_links e.network_engine.network.links
      ++ (queued e.teleportation_engine.queue.q ++ waiting e.net_message_broker)

module _ {F V R : Type 0} ⦃f : F64 F⦄ ⦃v : Vehicle F V⦄ ⦃t : Teleported F V⦄
    ⦃ps : Passengers V⦄ where
  -- The vehicle is on a stored link that takes it.
  pub record CanDrive (x : V) (begin : Bool) (now : Tick) (e : LegEngine F V R) : Type 0 where
    pub link_id : ℕ
    pub link : SimLink F V
    pub taken : SimLink F V
    pub room : e.network_engine.network.veh_counter + 1 < u64_mod
    pub valid : IsValid e.network_engine.network
    pub here : v.curr_link_id x ≡ some link_id
    pub stored : get link_id e.network_engine.network.links ≡ some link
    pub takes : Split.push_veh x (start_position begin) now link ≡ some taken

  to_network-held :
      (now : Tick) (x : V) (begin : Bool) (e : LegEngine F V R) {time : SimTime}
      → tick_to_time e.network_engine.network.clock now ≡ some time
      → CanDrive x begin now e
      → (e' : LegEngine F V R) × (events : List (LegEvent F)) × (to_network now x begin e
          ≡ some (e', events))
        × SameItems (held e') (x ∷ held e)
        × IsValid e'.network_engine.network
  unfolding to_network Network.receive_vehicle
  to_network-held now x begin e {time} clocked h =
      let net = e.network_engine.network in
      elim (send_veh_en_route-IsEntered x begin now net h.room h.valid h.here h.stored clocked) [
        | inl (_, at_start, o, leads_out) ↦
            let waits : Split.push_veh x (start_position begin) now h.link ≡ none =
              rw (at_start, leads_out) (out_refuses x now o) in
            absurd (ground (arith, waits, h.takes))
        | inr (_, n', events, sent, entered) ↦ (
          record e { network_engine = record e.network_engine { network = n' } },
          map on_network events,
          rw sent refl,
          λ p.
              held-grown p x (on_links net.links) (queued e.teleportation_engine.queue.q)
                (waiting e.net_message_broker) (on_links n'.links) entered.one_more,
          entered.valid,
        )
      ]

  to_teleportation-held :
      (now : Tick) (x : V) (e : LegEngine F V R) {x' : V} {time arrival : SimTime} {to : ℕ}
      → tick_to_time e.teleportation_engine.clock now ≡ some time
      → IsTeleported x x' time arrival to e.net_message_broker
      → (e' : LegEngine F V R) × (events : List (LegEvent F)) × (to_teleportation now x e
          ≡ some (e', events))
        × SameItems (held e') (x' ∷ held e)
        × (e'.network_engine ≡ e.network_engine)
  unfolding to_teleportation Teleportation.receive_vehicle is_local_route enqueue_local send_remote
      build queued TimeQueue.add rank_for_link
  to_teleportation-held now x e {x'} {time} {arrival} {to} clocked h =
      let b = e.net_message_broker in
      let tele = e.teleportation_engine in
      let y : TeleportingVehicle V = record { vehicle = x'; arrival_time = arrival } in
      let known : is_known F b.link_mapping x' ≡ true = ground (arith, h.at_end, h.known) in
      let (b', added, counts) = add_veh-waiting now x' b known in
      elim (Bool-cases (b.rank == to)) [
        | inl here ↦ (
          record e {
            teleportation_engine = record tele { queue = TimeQueue.add y time tele.queue };
          },
          [],
          ground (arith, clocked, h.started, h.on_leg, h.routed, h.known, here, h.arrives),
          λ p.
              held-queued p x' (on_links e.network_engine.network.links) (queued tele.queue.q)
                (waiting b),
          refl,
        )
        | inr there ↦ (
          record e { net_message_broker = b' },
          map leaves_partition (emit_partition_leave_events F x' to time),
          ground (arith, clocked, h.started, h.on_leg, h.routed, h.known, there, h.at_end, added),
          λ p.
              held-sent p x' (on_links e.network_engine.network.links) (queued tele.queue.q)
                (waiting b) (waiting b') (counts p),
          refl,
        )
      ]

  -- A vehicle that can go on at a tick with a time: on the road where its leg is of a main mode and its route a network
  -- route, and by teleportation otherwise.
  abbrev pub CanPass : V → Bool → Tick → SimTime → LegEngine F V R → Type 0
  CanPass x begin now time e =
      ((is_driven F e.main_modes x ≡ some true) × CanDrive x begin now e)
      ⊎ ((x' : V) × (arrival : SimTime) × (to : ℕ) × (is_driven F e.main_modes x ≡ some false)
          × IsTeleported x x' time arrival to e.net_message_broker)

  -- What the engine is behind a vehicle: that vehicle more, as it was or as its teleportation left it, and no other change
  -- of its vehicles.
  pub record IsPassed (x : V) (time : SimTime) (e e' : LegEngine F V R) : Type 0 where
    pub vehicle : V
    pub one_more : SameItems (held e') (vehicle ∷ held e)
    pub same_vehicle : (vehicle ≡ x) ⊎ (t.teleportation_started time x ≡ some vehicle)
    pub valid : IsValid e'.network_engine.network

  pub pass_vehicle_to_engine-IsPassed :
      (now : Tick) (x : V) (begin : Bool) (e : LegEngine F V R) {time : SimTime}
      → tick_to_time e.network_engine.network.clock now ≡ some time
      → tick_to_time e.teleportation_engine.clock now ≡ some time
      → IsValid e.network_engine.network
      → CanPass x begin now time e
      → (e' : LegEngine F V R) × (events : List (LegEvent F)) × (pass_vehicle_to_engine now x begin
            e
          ≡ some (e', events))
        × IsPassed x time e e'
  unfolding pass_vehicle_to_engine
  pass_vehicle_to_engine-IsPassed now x begin e {time} clocked ticked valid can = elim can [
    | inl (driven, drive) ↦
        let (e', events, done, same, valid') = to_network-held now x begin e clocked drive in
        (
          e',
          events,
          rw driven done,
          record { vehicle = x; one_more = same; same_vehicle = inl refl; valid = valid' },
        )
    | inr (x', arrival, to, carried, tele) ↦
        let (e', events, done, same, kept) = to_teleportation-held now x e ticked tele in
        (
          e',
          events,
          rw carried done,
          record {
            vehicle = x';
            one_more = same;
            same_vehicle = inr tele.started;
            valid = subst (λ n. IsValid n.network) (sym kept) valid;
          },
        )
  ]

module _ {F A V R : Type 0} ⦃f : F64 F⦄ ⦃v : Vehicle F V⦄ ⦃t : Teleported F V⦄ ⦃ps : Passengers V⦄
    ⦃l : LegAgent F A⦄ ⦃w : LegVehicle F A V⦄ where
  -- An agent whose next element is a leg with a route and a routing mode, on a network if its mode is a main mode, and
  -- whose vehicle is in the garage: that of the route, or its own for the mode.
  pub record CanDepart (agent departing : A) (time : SimTime) (e : LegEngine F V R) : Type 0 where
    pub leg : InternalLeg F
    pub route : InternalRoute F
    pub routing_mode : ℕ
    pub veh_id : ℕ
    pub parked : InternalVehicle F
    pub advanced : l.advance_plan time agent ≡ some departing
    pub on_leg : l.is_on_leg departing ≡ true
    pub current : l.curr_leg departing ≡ some leg
    pub routed : leg.route ≡ some route
    pub mode : leg.routing_mode ≡ some routing_mode
    pub chosen : vehicle_of departing leg route ≡ some veh_id
    pub drives : contains leg.mode e.main_modes ≡ true → is_network route ≡ true
    pub in_garage : get veh_id e.garage.vehicles ≡ some parked

  -- An agent that can depart, with a vehicle that can go on, departs without a panic: the engine then holds that
  -- vehicle with the agent as its driver and no passengers, in one place and no other change of its vehicles, and the
  -- events are its departure first, and with a main mode that it enters the vehicle.
  pub receive_agent-IsPassed :
      (now : Tick) (agent departing : A) (e : LegEngine F V R) {time : SimTime}
      → tick_to_time e.clock now ≡ some time
      → tick_to_time e.network_engine.network.clock now ≡ some time
      → tick_to_time e.teleportation_engine.clock now ≡ some time
      → IsValid e.network_engine.network
      → (d : CanDepart agent departing time e)
      → CanPass (w.new_vehicle d.parked departing []) true now time e
      → (e' : LegEngine F V R) × (later : List (LegEvent F)) × (receive_agent now agent e
          ≡ some (
            e',
            (person_departure time
                    (l.id departing)
                    (as_generic d.route).start_link
                    d.leg.mode
                    d.routing_mode
                  ∷ (if contains d.leg.mode e.main_modes
                      then person_enters_vehicle time (l.id departing) d.veh_id ∷ []
                      else []))
                ++ later,
          ))
        × IsPassed (w.new_vehicle d.parked departing []) time e e'
  unfolding receive_agent handle_departure enter_main_mode unpark_veh
  receive_agent-IsPassed now agent departing e {time} ticked clocked flown valid d can =
      let x = w.new_vehicle d.parked departing [] in
      let (e', later, passed, held_one) =
        pass_vehicle_to_engine-IsPassed now x true e clocked flown valid can in
      elim (Bool-cases (contains d.leg.mode e.main_modes)) [
        | inl main ↦ (
          e',
          later,
          ground (
            arith,
            ticked,
            d.advanced,
            d.on_leg,
            d.current,
            d.routed,
            d.mode,
            d.chosen,
            d.in_garage,
            d.drives main,
            main,
            passed,
          ),
          held_one,
        )
        | inr side ↦ (
          e',
          later,
          ground (
            arith, ticked, d.advanced, d.on_leg, d.current, d.routed, d.mode, d.chosen, d.in_garage,
            side, passed,
          ),
          held_one,
        )
      ]
