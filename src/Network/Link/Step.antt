-- ===== src/Network/Link/Step.antt =====
-- rust_qsim/src/simulation/network/link.rs: what a simulation step of a link does to its vehicles.
use mathlib.Core.List.{map-append}
use mathlib.Core.Option.{some-injective}
use parallel_qsim_rust.Prelude.{
  ◌≤◌, ◌≡◌, ◌≢◌, refl, sym, ap, ◌∙◌, false, some, List, [], ◌∷◌, ◌++◌, map, append_assoc, All,
  arith, select, inl, inr, Option-cases, length, length-append, count_if-append, count_if-select,
  SameItems, subst,
}
use parallel_qsim_rust.Time.{Tick, SimTime, tick_to_time}
use parallel_qsim_rust.Float.{F64, Vehicle, Event}
use parallel_qsim_rust.Network.Capacity.{update_capacity}
use parallel_qsim_rust.Network.LinkState.{VehicleQEntry, LocalLink}
use parallel_qsim_rust.Network.Link.{
  SimStep, queue_loop, waiting_loop, has_flow_capacity_left, release_from_queue, enters_traffic,
  leaves_traffic, do_sim_step,
}
use parallel_qsim_rust.Network.Link.Moves.{
  vehicles, arrives, moves_on, release_all, QueueStops, QueueRun, queue_loop-QueueRun, WaitingRun,
  waiting_loop-WaitingRun, after_queue, after_waiting, WaitingStops, Fits, Fits-append,
}

append_same : {V : Type 0} (xs ys : List V) → xs ≡ xs ++ ys → ys ≡ []
append_same xs [] h = refl
append_same xs (y ∷ ys) h = absurd (omega (arith, ap length h, length-append xs (y ∷ ys)))

module _ {F V : Type 0} ⦃f : F64 F⦄ ⦃v : Vehicle F V⦄ where
  -- All vehicles of a link.
  abbrev pub on_link : LocalLink F V → List V
  on_link l = l.waiting_list ++ (vehicles l.q ++ l.buffer)

  -- What one step of the link `l` at `now` does.
  pub record StepRun (now : Tick) (time : SimTime) (l : LocalLink F V) (s : SimStep F V)
      : Type 0 where
    pub from_waiting : List V
    pub from_queue : List (VehicleQEntry V)
    pub waiting_split : l.waiting_list ≡ from_waiting ++ s.link.waiting_list
    pub queue_split : l.q ≡ from_queue ++ s.link.q
    pub on_time : All (λ e. e.earliest_exit_time ≤ now) from_queue
    pub ending :
        s.ending_vehicles
        ≡ select (arrives v) from_waiting ++ select (arrives v) (vehicles from_queue)
    pub buffer :
        s.link.buffer
        ≡ l.buffer
          ++ (select (moves_on v) from_waiting ++ select (moves_on v) (vehicles from_queue))
    pub storage : s.link.storage_cap ≡ release_all (vehicles from_queue) l.storage_cap
    pub flow : s.link.flow_cap ≡ update_capacity time l.flow_cap
    pub frame : s.link ≡ record l {
      q = s.link.q;
      buffer = s.link.buffer;
      waiting_list = s.link.waiting_list;
      storage_cap = s.link.storage_cap;
      flow_cap = s.link.flow_cap;
    }
    pub events :
        s.events
        ≡ map (enters_traffic l time) from_waiting ++ map (leaves_traffic l time) s.ending_vehicles
    pub fits :
        Fits
          (update_capacity time l.flow_cap).remaining_capacity
          l.buffer
          (select (moves_on v) from_waiting ++ select (moves_on v) (vehicles from_queue))
    pub stops : QueueStops now s.link.q s.link
    pub waits : WaitingStops s.link.waiting_list s.link
    pub priority : s.link.waiting_list ≢ [] → select (moves_on v) (vehicles from_queue) ≡ []

  -- Without flow capacity nothing moves on.
  queue_full :
      (now : Tick) (q : List (VehicleQEntry V)) (l : LocalLink F V)
      → has_flow_capacity_left l ≡ false
      → (queue_loop now q l).1.buffer ≡ l.buffer
  unfolding queue_loop has_flow_capacity_left
  queue_full now [] l h = refl
  queue_full now (e ∷ q) l h = ground (arith, queue_full now q (release_from_queue e.vehicle l) h)

  abbrev pub updated : SimTime → LocalLink F V → LocalLink F V
  updated time l = record l { flow_cap = update_capacity time l.flow_cap }

  waiting_blocked :
      (w : List V) (l : LocalLink F V)
      → WaitingStops w l
      → w ≢ []
      → has_flow_capacity_left l ≡ false
  waiting_blocked [] l _ ne = absurd (ne refl)
  waiting_blocked (x ∷ w) l h ne = h.1

  stops_after :
      (w : List V) (l l' : LocalLink F V)
      → WaitingStops w l
      → l'.flow_cap ≡ l.flow_cap
      → (has_flow_capacity_left l ≡ false → l'.buffer ≡ l.buffer)
      → WaitingStops w l'
  unfolding has_flow_capacity_left
  stops_after [] l l' h flow kept = tt
  stops_after (x ∷ w) l l' (on, full) flow kept = (on, rw flow (rw (kept full) full))

  module _ (now : Tick) (time : SimTime) (l : LocalLink F V)
      (r : List V × LocalLink F V × List Event) (t : List V × LocalLink F V)
      (waited : WaitingRun time l.waiting_list (updated time l) r)
      (queued : QueueRun now r.1.q r.1 t)
      (full : has_flow_capacity_left r.1 ≡ false → t.1.buffer ≡ r.1.buffer) where
    both :
        t.1
        ≡ after_queue queued.taken queued.rest
            (after_waiting waited.taken waited.rest (updated time l))
    both = queued.link ∙ ap (after_queue queued.taken queued.rest) waited.link

    blocked : t.1.waiting_list ≢ [] → has_flow_capacity_left r.1 ≡ false
    blocked ne =
        waiting_blocked waited.rest r.1 waited.stops (λ e. ne (ap (λ k. k.waiting_list) both ∙ e))

    unmoved : t.1.waiting_list ≢ [] → select (moves_on v) (vehicles queued.taken) ≡ []
    unmoved ne = append_same r.1.buffer _ (sym (full (blocked ne)) ∙ ap (λ k. k.buffer) queued.link)

    -- The queue changes nothing that the test of the capacity reads, as long as a vehicle waits.
    still_waits : WaitingStops t.1.waiting_list t.1
    still_waits =
        let kept : t.1.waiting_list ≡ r.1.waiting_list = ap (λ k. k.waiting_list) queued.link in
        let own : r.1.waiting_list ≡ waited.rest = ap (λ k. k.waiting_list) waited.link in
        subst (λ w. WaitingStops w t.1) (sym (kept ∙ own))
          (stops_after waited.rest r.1 t.1 waited.stops (ap (λ k. k.flow_cap) queued.link) full)

    compose : StepRun now time l (record {
      ending_vehicles = r.0 ++ t.0;
      link = t.1;
      events = r.2 ++ map (leaves_traffic t.1 time) (r.0 ++ t.0);
    })
    compose = record {
      from_waiting = waited.taken;
      from_queue = queued.taken;
      waiting_split = rw (ap (λ k. k.waiting_list) both) waited.split;
      queue_split = rw (ap (λ k. k.q) both) (sym (ap (λ k. k.q) waited.link) ∙ queued.split);
      on_time = queued.on_time;
      ending = rw (waited.ends, queued.ends) refl;
      buffer = ap (λ k. k.buffer) both ∙ append_assoc l.buffer _ _;
      storage = ap (λ k. k.storage_cap) both;
      flow = ap (λ k. k.flow_cap) both;
      frame = rw both refl;
      events = rw (waited.events, ap (λ k. k.id) both) refl;
      fits =
          Fits-append (updated time l).flow_cap.remaining_capacity l.buffer
            (select (moves_on v) waited.taken) (select (moves_on v) (vehicles queued.taken))
            waited.fits
            (subst
              (λ (k : LocalLink F V).
                Fits k.flow_cap.remaining_capacity k.buffer
                  (select (moves_on v) (vehicles queued.taken)))
              waited.link queued.fits);
      stops = subst (λ q. QueueStops now q t.1) (sym (ap (λ k. k.q) both)) queued.stops;
      waits = still_waits;
      priority = unmoved;
    }

  -- A step returns whenever the tick has a time. It takes a prefix of the waiting list and a prefix of the
  -- queue, each in order; every vehicle that it takes from the queue has reached its earliest exit
  -- time. Those that arrive on this link end their leg, those of the waiting list first; the others
  -- join the end of the buffer in that order. The storage of the vehicles from the queue is released, and no
  -- other field but the flow capacity changes. It stops at a queued vehicle only if that one is too
  -- early, or wants to move on and finds no flow capacity, and at a waiting one only if it wants to move on and
  -- finds none; as long as a vehicle waits, none moves on from the queue. Every vehicle that joins the buffer
  -- finds flow capacity left behind the vehicles before it in the buffer.
  pub do_sim_step-StepRun :
      (now : Tick) (l : LocalLink F V) {time : SimTime}
      → tick_to_time l.clock now ≡ some time
      → (s : SimStep F V) × (do_sim_step now l ≡ some s) × StepRun now time l s
  unfolding do_sim_step
  do_sim_step-StepRun now l {time} e =
      let r = waiting_loop time l.waiting_list (updated time l) in
      let t = queue_loop now r.1.q r.1 in
      (
        record {
          ending_vehicles = r.0 ++ t.0;
          link = t.1;
          events = r.2 ++ map (leaves_traffic t.1 time) (r.0 ++ t.0);
        },
        rw e refl,
        compose now time l r t (waiting_loop-WaitingRun time l.waiting_list (updated time l))
            (queue_loop-QueueRun now r.1.q r.1) (queue_full now r.1.q r.1),
      )

  -- A step that returns is such a run.
  pub do_sim_step_inv :
      (now : Tick) (l : LocalLink F V) (s : SimStep F V)
      → do_sim_step now l ≡ some s
      → (time : SimTime) × StepRun now time l s
  unfolding do_sim_step
  do_sim_step_inv now l s e = elim (Option-cases (tick_to_time l.clock now)) [
    | inl no_time ↦ ground (arith, no_time)
    | inr (time, t) ↦
        let (s', done, run) = do_sim_step-StepRun now l t in
        (time, subst (StepRun now time l) (some-injective _ _ (sym done ∙ e)) run)
  ]

  pub StepRun-SameItems :
      (now : Tick) (time : SimTime) (l : LocalLink F V) (s : SimStep F V)
      → StepRun now time l s
      → SameItems (s.ending_vehicles ++ on_link s.link) (on_link l)
  StepRun-SameItems now time l s run p =
      let w = run.from_waiting in
      let q = vehicles run.from_queue in
      rw (run.waiting_split, run.queue_split, run.ending, run.buffer)
        (simp (count_if-append, map-append)
          (omega (arith, count_if-select p (arrives v) w, count_if-select p (arrives v) q)))

  -- A step neither loses nor adds a vehicle: the vehicles that end their leg and those that stay are the
  -- vehicles of the link before.
  pub do_sim_step-SameItems :
      (now : Tick) (l : LocalLink F V) {time : SimTime}
      → tick_to_time l.clock now ≡ some time
      → (s : SimStep F V) × (do_sim_step now l ≡ some s)
        × SameItems (s.ending_vehicles ++ on_link s.link) (on_link l)
  do_sim_step-SameItems now l {time} e =
      let (s, done, run) = do_sim_step-StepRun now l e in
      (s, done, StepRun-SameItems now time l s run)
