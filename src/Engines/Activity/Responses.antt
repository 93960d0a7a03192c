-- ===== src/Engines/Activity/Responses.antt =====
-- rust_qsim/src/simulation/engines/activity_engine.rs: its operations on agents that answer.
use parallel_qsim_rust.Prelude.{
  ℕ, ◌+◌, ◌<◌, ◌≡◌, refl, sym, ap, subst, Bool, some, List, [], ◌∷◌, length, All, count_if, arith,
  u64_mod,
}
use parallel_qsim_rust.Time.{Tick, SimTime, tick_to_time}
use parallel_qsim_rust.TimeQueue.{TimeQueue}
use parallel_qsim_rust.TimeQueue
use parallel_qsim_rust.TimeQueue.Refinement.{view, IsFresh, view-add}
use parallel_qsim_rust.Population.{Coordinate, InternalActivity}
use parallel_qsim_rust.Agents.{AgentEvent, activity_started, woke_up, activity_finished}
use parallel_qsim_rust.Engines.Activity.{
  asleep_end_time, SimulationAgentLogic, ActivityEvent, activity_start, AsleepSimulationAgent,
  AwakeSimulationAgent, ActivityEngine, build, receive_agent, receive_all,
}
use parallel_qsim_rust.Engines.Activity.Queues.{scheduled, scheduled-enqueue, AllOf, AllOf-enqueue}

module _ (F : Type 0) {A : Type 0} ⦃l : SimulationAgentLogic F A⦄ where
  -- How many agents have an identity that passes a test.
  abbrev pub agents_by : (ℕ → Bool) → List A → ℕ
  agents_by p xs = count_if (λ a. p (l.id a)) xs

  abbrev pub awake_by : (ℕ → Bool) → List (AwakeSimulationAgent A) → ℕ
  awake_by p ws = count_if (λ w. p (l.id w.agent)) ws

  abbrev pub asleep_by : (ℕ → Bool) → TimeQueue (AsleepSimulationAgent A) → ℕ
  asleep_by p q = scheduled (λ x. p (l.id x.agent)) (view q.q)

module _ (F : Type 0) {A : Type 0} ⦃l : SimulationAgentLogic F A⦄
    (Arriving Staying : A → Type 0) where
  abbrev Told : AgentEvent → SimTime → A → Type 0
  Told event now a =
      (a' : A) × (l.notify_event event now a ≡ some a') × Staying a' × (l.id a' ≡ l.id a)

  -- Agents that arrive can advance their plan and stay then. Agents that stay are in an activity with a
  -- coordinate, have a time to wake up and an end time, and answer the events of the engine by staying. Nobody
  -- changes identity.
  pub record AreResponsive (now : SimTime) : Type 0 where
    pub advances :
        (a : A)
        → Arriving a
        → (a' : A) × (l.advance_plan now a ≡ some a') × Staying a' × (l.id a' ≡ l.id a)
    pub acts :
        (a : A)
        → Staying a
        → (act : InternalActivity F) × (c : Coordinate F) × (l.curr_act a ≡ some act)
          × (act.coord ≡ some c)
    pub wakes : (a : A) (t : SimTime) → Staying a → (s : SimTime) × (l.wakeup_time a t ≡ some s)
    pub ends : (a : A) (t : SimTime) → Staying a → (s : SimTime) × (l.end_time a t ≡ some s)
    pub starts : (a : A) → Staying a → Told activity_started now a
    pub woken : (a : A) (t : SimTime) → Staying a → Told (woke_up t) now a
    pub finishes : (a : A) → Staying a → Told activity_finished now a

add_counter :
    {A : Type 0} (x : AsleepSimulationAgent A) (now : SimTime)
    (q : TimeQueue (AsleepSimulationAgent A))
    → q.counter + 1 < u64_mod
    → (TimeQueue.add x now q).counter ≡ q.counter + 1
unfolding TimeQueue.add
add_counter x now q fits = omega (arith, fits)

module _ (F : Type 0) {A : Type 0} ⦃l : SimulationAgentLogic F A⦄ (Arriving Staying : A → Type 0)
    (now : SimTime) (r : AreResponsive F Arriving Staying now) where
  abbrev pub AllAsleep : TimeQueue (AsleepSimulationAgent A) → Type 0
  AllAsleep q = IsFresh q × AllOf (λ x. Staying x.agent) (view q.q)

  receive_agent_total :
      (tick : Tick) (x : AsleepSimulationAgent A) (e : ActivityEngine A)
      → tick_to_time e.clock tick ≡ some now
      → Staying x.agent
      → AllAsleep e.asleep_q
      → e.asleep_q.counter + 1 < u64_mod
      → (q : TimeQueue (AsleepSimulationAgent A)) × (event : ActivityEvent F) × (receive_agent F
            tick x e
          ≡ some ((record e { asleep_q = q }), event))
        × AllAsleep q
        × (q.counter ≡ e.asleep_q.counter + 1)
        × ((p : ℕ → Bool)
            → asleep_by F p q ≡ agents_by F p (x.agent ∷ []) + asleep_by F p e.asleep_q)
  unfolding receive_agent
  receive_agent_total tick x e clocked stays (fresh, all) fits =
      let (act, c, found, at) = r.acts x.agent stays in
      let (agent, told, stays', same) = r.starts x.agent stays in
      let x' : AsleepSimulationAgent A = record x { agent = agent } in
      let q = TimeQueue.add x' now e.asleep_q in
      let (shown, fresh') = view-add x' now e.asleep_q fresh fits in
      (
        q,
        activity_start now (l.id x.agent) act.link_id c act.act_type,
        rw clocked (rw found (rw at (rw told refl))),
        (
          fresh',
          subst (AllOf (λ y. Staying y.agent)) (sym shown) (
              AllOf-enqueue (λ y. Staying y.agent) x.wakeup_time x' (view e.asleep_q.q) stays' all),
        ),
        add_counter x' now e.asleep_q fits,
        λ p. ground (
          arith,
          ap (scheduled (λ (y : AsleepSimulationAgent A). p (l.id y.agent))) shown,
          scheduled-enqueue (λ (y : AsleepSimulationAgent A). p (l.id y.agent)) x.wakeup_time x'
              (view e.asleep_q.q),
          same,
        ),
      )

  pub receive_all_total :
      (tick : Tick) (agents : List A) (e : ActivityEngine A)
      → tick_to_time e.clock tick ≡ some now
      → All Arriving agents
      → AllAsleep e.asleep_q
      → e.asleep_q.counter + length agents < u64_mod
      → (q : TimeQueue (AsleepSimulationAgent A)) × (events : List (ActivityEvent F)) × (receive_all
            F tick now agents e
          ≡ some ((record e { asleep_q = q }), events))
        × AllAsleep q
        × ((p : ℕ → Bool) → asleep_by F p q ≡ agents_by F p agents + asleep_by F p e.asleep_q)
  unfolding receive_all build
  receive_all_total tick [] e clocked _ all fits = (e.asleep_q, [], refl, all, λ p. omega arith)
  receive_all_total tick (a ∷ agents) e clocked (arrives, rest) all fits =
      let (a', advanced, stays, same) = r.advances a arrives in
      let (t, wakes) = r.wakes a' now stays in
      let x : AsleepSimulationAgent A = record { agent = a'; wakeup_time = t; begin_time = now } in
      let (q, event, received, all', counter, count) =
        receive_agent_total tick x e clocked stays all (omega (arith, fits)) in
      let (q', events, done, all'', counts) =
        receive_all_total tick agents (record e { asleep_q = q }) clocked rest all'
          (omega (arith, fits, counter)) in
      (
        q',
        event ∷ events,
        rw advanced (rw wakes (rw received (rw done refl))),
        all'',
        λ p. ground (arith, count p, counts p, same),
      )
