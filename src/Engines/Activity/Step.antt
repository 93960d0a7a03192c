-- ===== src/Engines/Activity/Step.antt =====
-- rust_qsim/src/simulation/engines/activity_engine.rs: a whole step of the engine.
use parallel_qsim_rust.Prelude.{
  ℕ, ◌+◌, ◌<◌, ◌≡◌, refl, sym, ap, subst, Bool, some, List, [], ◌++◌, length, All, All-append,
  count_if, count_if-append, arith, u64_mod,
}
use parallel_qsim_rust.Time.{Tick, SimTime, tick_to_time}
use parallel_qsim_rust.TimeQueue.{TimeQueue}
use parallel_qsim_rust.TimeQueue
use parallel_qsim_rust.TimeQueue.Refinement.{view, view-pop, pop-IsFresh}
use parallel_qsim_rust.Engines.Activity.{
  asleep_end_time, SimulationAgentLogic, ActivityEvent, AsleepSimulationAgent, AwakeSimulationAgent,
  ActivityEngine, wake_up, end, do_step,
}
use parallel_qsim_rust.Engines.Activity.Queues.{
  scheduled, scheduled-due, later-All, AllOf, AllOf-due,
}
use parallel_qsim_rust.Engines.Activity.Responses.{
  AreResponsive, agents_by, awake_by, asleep_by, AllAsleep, receive_all_total,
}
use parallel_qsim_rust.Engines.Activity.Ending.{
  AllAwake, IsLater, sort_woken_total, notify_woken_total, notify_awake_total, end_loop_total,
  notify_end_all_total,
}

module _ (F : Type 0) {A : Type 0} ⦃l : SimulationAgentLogic F A⦄ where
  -- How many agents of the engine have an identity that passes a test.
  abbrev pub held_by : (ℕ → Bool) → ActivityEngine A → ℕ
  held_by p e = awake_by F p e.awake_q + asleep_by F p e.asleep_q

module _ (F : Type 0) {A : Type 0} ⦃l : SimulationAgentLogic F A⦄ (Arriving Staying : A → Type 0)
    (now : SimTime) (r : AreResponsive F Arriving Staying now) where
  -- Every agent of the engine stays.
  pub record IsSettled (e : ActivityEngine A) : Type 0 where
    pub asleep : AllAsleep F Arriving Staying now r e.asleep_q
    pub awake : AllAwake F Arriving Staying now r e.awake_q

  -- What a step with the arriving `agents` leaves of the engine `e`, and whom it returns.
  pub record IsStepped (agents : List A) (e : ActivityEngine A) (out : List A)
      (e' : ActivityEngine A) : Type 0 where
    pub settled : IsSettled e'
    pub returned : All Staying out
    pub same_agents :
        (p : ℕ → Bool) → agents_by F p out + held_by F p e' ≡ agents_by F p agents + held_by F p e
    pub asleep_later : All (λ x. now < x.0) (view e'.asleep_q.q)
    pub awake_later : All (IsLater F Arriving Staying now r) e'.awake_q

  wake_up_total :
      (e : ActivityEngine A)
      → IsSettled e
      → (ends : List A) × (awake : List (AwakeSimulationAgent A)) × (q : TimeQueue
          (AsleepSimulationAgent A))
        × (wake_up F now e ≡ some (ends, record e { asleep_q = q; awake_q = e.awake_q ++ awake }))
        × All Staying ends
        × IsSettled (record e { asleep_q = q; awake_q = e.awake_q ++ awake })
        × All (λ x. now < x.0) (view q.q)
        × ((p : ℕ → Bool)
            → agents_by F p ends + awake_by F p awake + asleep_by F p q ≡ asleep_by F p e.asleep_q)
  unfolding wake_up
  wake_up_total e h =
      let (fresh, all) = h.asleep in
      let (taken, left, _) = view-pop now e.asleep_q in
      let (woken, q) = TimeQueue.pop now e.asleep_q in
      let (all_due, all_later) =
        AllOf-due (λ (x : AsleepSimulationAgent A). Staying x.agent) now (view e.asleep_q.q) all in
      let (ends, awake, done, stay, stay', counts) =
        sort_woken_total F Arriving Staying now r woken
          (subst (All (λ x. Staying x.agent)) (sym taken) all_due) in
      (
        ends,
        awake,
        q,
        rw done refl,
        stay,
        record {
          asleep = (
            pop-IsFresh now e.asleep_q fresh,
            subst (AllOf (λ (x : AsleepSimulationAgent A). Staying x.agent)) (sym left) all_later,
          );
          awake = All-append (λ w. Staying w.agent) e.awake_q awake h.awake stay';
        },
        subst (All (λ x. now < x.0)) (sym left) (later-All now (view e.asleep_q.q)),
        λ p. omega (
          arith,
          counts p,
          ap (count_if (λ (x : AsleepSimulationAgent A). p (l.id x.agent))) taken,
          ap (scheduled (λ (x : AsleepSimulationAgent A). p (l.id x.agent))) left,
          scheduled-due (λ (x : AsleepSimulationAgent A). p (l.id x.agent)) now (view e.asleep_q.q),
        ),
      )

  end_total :
      (e : ActivityEngine A)
      → AllAwake F Arriving Staying now r e.awake_q
      → (ends : List A) × (awake : List (AwakeSimulationAgent A)) × (end F now e
          ≡ some (ends, record e { awake_q = awake }))
        × All Staying ends
        × AllAwake F Arriving Staying now r awake
        × All (IsLater F Arriving Staying now r) awake
        × ((p : ℕ → Bool) → agents_by F p ends + awake_by F p awake ≡ awake_by F p e.awake_q)
  unfolding end
  end_total e h =
      let (ends, awake, done, stay, stay', later, counts) =
        end_loop_total F Arriving Staying now r (length e.awake_q) [] e.awake_q (omega arith) tt h
          tt in
      (ends, awake, rw done refl, stay, stay', later, λ p. omega (arith, counts p))

  -- Take agents that answer the engine (`AreResponsive`), a tick that has a time, arriving agents that can advance their plan and
  -- an engine whose agents stay, with a counter of its queue below 2^64 behind the arrivals. The step returns without a
  -- panic. Those that it returns and those that it then holds are the arriving agents and those that it held, by
  -- identity; all of them answer as before. Whoever is asleep behind it wakes up later than now, and whoever is awake ends the
  -- activity later than now.
  pub do_step-IsStepped :
      (tick : Tick) (agents : List A) (e : ActivityEngine A)
      → tick_to_time e.clock tick ≡ some now
      → All Arriving agents
      → IsSettled e
      → e.asleep_q.counter + length agents < u64_mod
      → (out : List A) × (e' : ActivityEngine A) × (events : List (ActivityEvent F)) × (do_step F
            tick agents e
          ≡ some (out, e', events))
        × IsStepped agents e out e'
  unfolding do_step
  do_step-IsStepped tick agents e clocked arrive h fits =
      let (q₁, started, received, asleep₁, count₁) =
        receive_all_total F Arriving Staying now r tick agents e clocked arrive h.asleep fits in
      let e₁ : ActivityEngine A = record e { asleep_q = q₁ } in
      let (woken, awake, q₂, woke, stay, settled, later, count₂) =
        wake_up_total e₁ (record { asleep = asleep₁; awake = h.awake }) in
      let (told, notified, told_stay, count₃) =
        notify_woken_total F Arriving Staying now r woken stay in
      let (ws, notified', ws_stay, count₄) =
        notify_awake_total F Arriving Staying now r (e.awake_q ++ awake) settled.awake in
      let e₂ : ActivityEngine A = record e { asleep_q = q₂; awake_q = ws } in
      let (ends, awake', ended, end_stay, kept, awake_later, count₅) = end_total e₂ ws_stay in
      let (out, finished, closed, out_stay, count₆) =
        notify_end_all_total F Arriving Staying now r (told ++ ends)
          (All-append Staying told ends told_stay end_stay) in
      (
        out,
        record e { asleep_q = q₂; awake_q = awake' },
        started ++ finished,
        rw clocked (rw received (rw woke (rw notified (rw notified' (rw ended (rw closed refl)))))),
        record {
          settled = record { asleep = settled.asleep; awake = kept };
          returned = out_stay;
          same_agents = λ p. omega (
            arith,
            count₁ p,
            count₂ p,
            count₃ p,
            count₄ p,
            count₅ p,
            count₆ p,
            count_if-append (λ a. p (l.id a)) told ends,
            count_if-append (λ (w : AwakeSimulationAgent A). p (l.id w.agent)) e.awake_q awake,
          );
          asleep_later = later;
          awake_later = awake_later;
        },
      )
