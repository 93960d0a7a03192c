-- ===== src/Network/Link/Moves.antt =====
-- rust_qsim/src/simulation/network/link.rs: which vehicles the two loops of a link step take, and in what order.
use parallel_qsim_rust.Prelude.{
  ◌≤◌, ◌<◌, ◌≡◌, refl, sym, ap, subst, Bool, true, false, not, leb, List, [], ◌∷◌, ◌++◌, map,
  append_assoc, append-nil, All, arith, inl, inr, Bool-cases, select, ◌⊎◌,
}
use parallel_qsim_rust.Time.{Tick, SimTime}
use parallel_qsim_rust.Float.{F64, gt, sum_from, Vehicle, Event}
use parallel_qsim_rust.Network.Capacity.{StorageCap, release}
use parallel_qsim_rust.Network.LinkState.{VehicleQEntry, LocalLink}
use parallel_qsim_rust.Network.Link.{
  queue_loop, waiting_loop, has_flow_capacity_left, release_from_queue, push_to_buffer,
  enters_traffic,
}

abbrev pub vehicles : {V : Type 0} → List (VehicleQEntry V) → List V
vehicles = map (λ e. e.vehicle)

-- The vehicles that end their leg on their link, and the others.
abbrev pub arrives : {F V : Type 0} → Vehicle F V → V → Bool
arrives v = v.is_wanting_to_arrive_on_current_link

abbrev pub moves_on : {F V : Type 0} → Vehicle F V → V → Bool
moves_on v x = not (v.is_wanting_to_arrive_on_current_link x)

module _ {F V : Type 0} ⦃f : F64 F⦄ ⦃v : Vehicle F V⦄ where
  abbrev pub release_all : List V → StorageCap F → StorageCap F
  release_all [] c = c
  release_all (x ∷ xs) c = release_all xs (release (v.pce x) c)

  -- Every vehicle that joins the buffer finds capacity left behind what the vehicles before it in the buffer need.
  abbrev pub Fits : (remaining : F) (buffer joined : List V) → Type 0
  Fits remaining buffer [] = Unit {0}
  Fits remaining buffer (x ∷ joined) =
      (gt (f.sub remaining (sum_from (f.lit 0 0) (map v.pce buffer))) (f.lit 0 0) ≡ true)
      × Fits remaining (buffer ++ x ∷ []) joined

  pub Fits-append :
      (remaining : F) (buffer xs ys : List V)
      → Fits remaining buffer xs
      → Fits remaining (buffer ++ xs) ys
      → Fits remaining buffer (xs ++ ys)
  Fits-append remaining buffer [] ys h k = subst (λ b. Fits remaining b ys) (append-nil buffer) k
  Fits-append remaining buffer (x ∷ xs) ys (room, h) k = (
    room,
    Fits-append remaining (buffer ++ x ∷ []) xs ys h
        (subst (λ b. Fits remaining b ys) (sym (append_assoc buffer (x ∷ []) xs)) k),
  )

  room_left :
      (l : LocalLink F V)
      → has_flow_capacity_left l ≡ true
      → gt
          (f.sub l.flow_cap.remaining_capacity (sum_from (f.lit 0 0) (map v.pce l.buffer)))
          (f.lit 0 0)
        ≡ true
  unfolding has_flow_capacity_left
  room_left l h = h

  -- Why a loop leaves the queue `q` of the link `l` as it is.
  abbrev pub QueueStops : Tick → List (VehicleQEntry V) → LocalLink F V → Type 0
  QueueStops now [] l = Unit {0}
  QueueStops now (e ∷ q) l =
      (now < e.earliest_exit_time)
      ⊎ ((v.is_wanting_to_arrive_on_current_link e.vehicle ≡ false)
          × (has_flow_capacity_left l ≡ false))

  abbrev pub WaitingStops : List V → LocalLink F V → Type 0
  WaitingStops [] l = Unit {0}
  WaitingStops (x ∷ w) l =
      (v.is_wanting_to_arrive_on_current_link x ≡ false) × (has_flow_capacity_left l ≡ false)

  abbrev pub after_queue :
      List (VehicleQEntry V) → List (VehicleQEntry V) → LocalLink F V → LocalLink F V
  after_queue taken rest l = record l {
    q = rest;
    buffer = l.buffer ++ select (moves_on v) (vehicles taken);
    storage_cap = release_all (vehicles taken) l.storage_cap;
  }

  -- What the loop over the queue `q` of `l` yields.
  pub record QueueRun (now : Tick) (q : List (VehicleQEntry V)) (l : LocalLink F V)
      (r : List V × LocalLink F V) : Type 0 where
    pub taken : List (VehicleQEntry V)
    pub rest : List (VehicleQEntry V)
    pub split : q ≡ taken ++ rest
    pub on_time : All (λ e. e.earliest_exit_time ≤ now) taken
    pub ends : r.0 ≡ select (arrives v) (vehicles taken)
    pub link : r.1 ≡ after_queue taken rest l
    pub stops : QueueStops now rest r.1
    pub fits : Fits l.flow_cap.remaining_capacity l.buffer (select (moves_on v) (vehicles taken))

  queue_stop :
      (now : Tick) (q : List (VehicleQEntry V)) (l : LocalLink F V)
      → QueueStops now q l
      → QueueRun now q l ([], record l { q = q })
  unfolding has_flow_capacity_left
  queue_stop now [] l h = record {
    taken = [];
    rest = [];
    split = refl;
    on_time = tt;
    ends = refl;
    link = rw (append-nil l.buffer) refl;
    stops = tt;
    fits = tt;
  }
  queue_stop now (e ∷ q) l h = record {
    taken = [];
    rest = e ∷ q;
    split = refl;
    on_time = tt;
    ends = refl;
    link = rw (append-nil l.buffer) refl;
    stops = h;
    fits = tt;
  }

  module _ {now : Tick} {e : VehicleQEntry V} {q : List (VehicleQEntry V)} {l : LocalLink F V}
      {r : List V × LocalLink F V} (due : e.earliest_exit_time ≤ now) where
    queue_gone :
        arrives v e.vehicle ≡ true
        → QueueRun now q (release_from_queue e.vehicle l) r
        → QueueRun now (e ∷ q) l (e.vehicle ∷ r.0, r.1)
    queue_gone h run = record {
      taken = e ∷ run.taken;
      rest = run.rest;
      split = ap (◌∷◌ e) run.split;
      on_time = (due, run.on_time);
      ends = rw (h, run.ends) refl;
      link = rw h run.link;
      stops = run.stops;
      fits = rw h run.fits;
    }

    queue_next :
        arrives v e.vehicle ≡ false
        → has_flow_capacity_left l ≡ true
        → QueueRun now q (push_to_buffer e.vehicle (release_from_queue e.vehicle l)) r
        → QueueRun now (e ∷ q) l r
    queue_next h room run = record {
      taken = e ∷ run.taken;
      rest = run.rest;
      split = ap (◌∷◌ e) run.split;
      on_time = (due, run.on_time);
      ends = rw h run.ends;
      link = rw h (rw append_assoc at run.link);
      stops = run.stops;
      fits = rw h (room_left l room, run.fits);
    }

  -- The loop takes a prefix of the queue whose exit times have come, in order, and stops at a
  -- vehicle that may not leave.
  pub queue_loop-QueueRun :
      (now : Tick) (q : List (VehicleQEntry V)) (l : LocalLink F V)
      → QueueRun now q l (queue_loop now q l)
  unfolding queue_loop
  queue_loop-QueueRun now [] l = queue_stop now [] l tt
  queue_loop-QueueRun now (e ∷ q) l = elim (Bool-cases (leb e.earliest_exit_time now)) [
    | inr early ↦ rw early (queue_stop now (e ∷ q) l (inl (ground arith)))
    | inl due ↦ elim (Bool-cases (arrives v e.vehicle)) [
      | inl ends ↦
          rw (due, ends)
            (queue_gone (ground arith) ends
              (queue_loop-QueueRun now q (release_from_queue e.vehicle l)))
      | inr on ↦ elim (Bool-cases (has_flow_capacity_left l)) [
        | inl room ↦
            rw (due, on, room)
              (queue_next (ground arith) on room (
                queue_loop-QueueRun now q
                  (push_to_buffer e.vehicle (release_from_queue e.vehicle l))))
        | inr full ↦ rw (due, on, full) (queue_stop now (e ∷ q) l (inr (on, full)))
      ]
    ]
  ]

  abbrev pub after_waiting : List V → List V → LocalLink F V → LocalLink F V
  after_waiting taken rest l = record l {
    waiting_list = rest;
    buffer = l.buffer ++ select (moves_on v) taken;
  }

  -- What the loop over the waiting list `w` of `l` yields.
  pub record WaitingRun (time : SimTime) (w : List V) (l : LocalLink F V)
      (r : List V × LocalLink F V × List Event) : Type 0 where
    pub taken : List V
    pub rest : List V
    pub split : w ≡ taken ++ rest
    pub ends : r.0 ≡ select (arrives v) taken
    pub link : r.1 ≡ after_waiting taken rest l
    pub events : r.2 ≡ map (enters_traffic l time) taken
    pub stops : WaitingStops rest r.1
    pub fits : Fits l.flow_cap.remaining_capacity l.buffer (select (moves_on v) taken)

  waiting_stop :
      (time : SimTime) (w : List V) (l : LocalLink F V)
      → WaitingStops w l
      → WaitingRun time w l ([], record l { waiting_list = w }, [])
  unfolding has_flow_capacity_left
  waiting_stop time [] l h = record {
    taken = [];
    rest = [];
    split = refl;
    ends = refl;
    link = rw (append-nil l.buffer) refl;
    events = refl;
    stops = tt;
    fits = tt;
  }
  waiting_stop time (x ∷ w) l h = record {
    taken = [];
    rest = x ∷ w;
    split = refl;
    ends = refl;
    link = rw (append-nil l.buffer) refl;
    events = refl;
    stops = h;
    fits = tt;
  }

  module _ {time : SimTime} {x : V} {w : List V} {l : LocalLink F V}
      {r : List V × LocalLink F V × List Event} where
    waiting_gone :
        arrives v x ≡ true
        → WaitingRun time w l r
        → WaitingRun time (x ∷ w) l (x ∷ r.0, r.1, enters_traffic l time x ∷ r.2)
    waiting_gone h run = record {
      taken = x ∷ run.taken;
      rest = run.rest;
      split = ap (◌∷◌ x) run.split;
      ends = rw (h, run.ends) refl;
      link = rw h run.link;
      events = ap (◌∷◌ (enters_traffic l time x)) run.events;
      stops = run.stops;
      fits = rw h run.fits;
    }

    waiting_next :
        arrives v x ≡ false
        → has_flow_capacity_left l ≡ true
        → WaitingRun time w (push_to_buffer x l) r
        → WaitingRun time (x ∷ w) l (r.0, r.1, enters_traffic l time x ∷ r.2)
    waiting_next h room run = record {
      taken = x ∷ run.taken;
      rest = run.rest;
      split = ap (◌∷◌ x) run.split;
      ends = rw h run.ends;
      link = rw h (rw append_assoc at run.link);
      events = ap (◌∷◌ (enters_traffic l time x)) run.events;
      stops = run.stops;
      fits = rw h (room_left l room, run.fits);
    }

  -- The loop takes a prefix of the waiting list, in order, and stops at a vehicle that may not leave.
  pub waiting_loop-WaitingRun :
      (time : SimTime) (w : List V) (l : LocalLink F V)
      → WaitingRun time w l (waiting_loop time w l)
  unfolding waiting_loop
  waiting_loop-WaitingRun time [] l = waiting_stop time [] l tt
  waiting_loop-WaitingRun time (x ∷ w) l = elim (Bool-cases (arrives v x)) [
    | inl ends ↦ rw ends (waiting_gone ends (waiting_loop-WaitingRun time w l))
    | inr on ↦ elim (Bool-cases (has_flow_capacity_left l)) [
      | inl room ↦
          rw (on, room) (waiting_next on room (waiting_loop-WaitingRun time w (push_to_buffer x l)))
      | inr full ↦ rw (on, full) (waiting_stop time (x ∷ w) l (on, full))
    ]
  ]
