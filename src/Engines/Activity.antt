-- ===== src/Engines/Activity.antt =====
-- rust_qsim/src/simulation/engines/activity_engine.rs: the agents that perform activities. `none` is a panic; the events that
-- an operation publishes are part of its result. What an agent does with an event is behind its trait.
pub mod Queues
pub mod Responses
pub mod Ending
pub mod Step
pub mod PlanBased
use parallel_qsim_rust.Prelude.{
  ℕ, zero, suc, Bool, leb, if◌then◌else◌, Option, none, some, ◌>>=◌, List, [], ◌∷◌, ◌++◌, map,
  length,
}
use parallel_qsim_rust.Time.{Tick, SimTime, SimClock, tick_to_time}
use parallel_qsim_rust.TimeQueue.{TimeQueue, EndTime}
use parallel_qsim_rust.TimeQueue
use parallel_qsim_rust.Population.{Coordinate, InternalActivity}
use parallel_qsim_rust.Agents.{AgentEvent, activity_started, woke_up, activity_finished}

-- The methods of the trait `SimulationAgentLogic` (agents/mod.rs) that the engine calls.
pub record SimulationAgentLogic (F A : Type 0) : Type 0 where
  pub id : A → ℕ
  pub curr_act : A → Option (InternalActivity F)
  pub advance_plan : SimTime → A → Option A
  pub end_time : A → SimTime → Option SimTime
  pub wakeup_time : A → SimTime → Option SimTime
  pub notify_event : AgentEvent → SimTime → A → Option A

pub data ActivityEvent (F : Type 0) : Type 0 where
  activity_start activity_end :
      SimTime → (person link : ℕ) → Coordinate F → (act_type : ℕ) → ActivityEvent F

pub record AsleepSimulationAgent (A : Type 0) : Type 0 where
  pub agent : A
  pub wakeup_time : SimTime
  pub begin_time : SimTime

pub record AwakeSimulationAgent (A : Type 0) : Type 0 where
  pub agent : A
  pub begin_time : SimTime

instance abbrev pub asleep_end_time : {A : Type 0} → EndTime (AsleepSimulationAgent A)
asleep_end_time = record { end_time = λ x now. x.wakeup_time }

pub record ActivityEngine (A : Type 0) : Type 0 where
  pub asleep_q : TimeQueue (AsleepSimulationAgent A)
  pub awake_q : List (AwakeSimulationAgent A)
  pub clock : SimClock

module _ {A : Type 0} where
  abbrev pub split_last : A → List A → A × List A
  split_last x [] = (x, [])
  split_last x (y ∷ ys) = let (z, r) = split_last y ys in (z, x ∷ r)

  -- `swap_remove` fills the gap with the last element: the elements from the gap on.
  unfoldable pub fill_gap : List A → List A
  fill_gap [] = []
  fill_gap (x ∷ xs) = let (z, r) = split_last x xs in z ∷ r

  unfoldable pub drain : ActivityEngine A → List A × ActivityEngine A
  drain e =
      let (xs, q) = TimeQueue.drain e.asleep_q in
      (
        map (λ w. w.agent) e.awake_q ++ map (λ x. x.agent) xs,
        record e { awake_q = []; asleep_q = q },
      )

module _ (F : Type 0) {A : Type 0} ⦃l : SimulationAgentLogic F A⦄ where
  unfoldable pub build : A → SimTime → Option (AsleepSimulationAgent A)
  build agent now = l.wakeup_time agent now >>= λ t.
      some (record { agent = agent; wakeup_time = t; begin_time = now })

  unfoldable pub receive_agent :
      Tick
      → AsleepSimulationAgent A
      → ActivityEngine A
      → Option (ActivityEngine A × ActivityEvent F)
  receive_agent now x e = do
    now_time ← tick_to_time e.clock now
    act ← l.curr_act x.agent
    coord ← act.coord
    agent ← l.notify_event activity_started now_time x.agent
    let q = TimeQueue.add (record x { agent = agent }) now_time e.asleep_q
    some (
      record e { asleep_q = q },
      activity_start now_time (l.id x.agent) act.link_id coord act.act_type,
    )

  -- The loop over the arriving agents.
  unfoldable pub receive_all :
      Tick
      → SimTime
      → List A
      → ActivityEngine A
      → Option (ActivityEngine A × List (ActivityEvent F))
  receive_all now now_time [] e = some (e, [])
  receive_all now now_time (a ∷ others) e = do
    agent ← l.advance_plan now_time a
    asleep ← build agent now_time
    (e₁, event) ← receive_agent now asleep e
    (e₂, events) ← receive_all now now_time others e₁
    some (e₂, event ∷ events)

  abbrev pub awake_end : AwakeSimulationAgent A → Option SimTime
  awake_end w = l.end_time w.agent w.begin_time

  -- The agents that woke up: those whose end time is reached, and those that are put into the awake queue.
  unfoldable pub sort_woken :
      SimTime → List (AsleepSimulationAgent A) → Option (List A × List (AwakeSimulationAgent A))
  sort_woken now [] = some ([], [])
  sort_woken now (x ∷ xs) = do
    let w : AwakeSimulationAgent A = record { agent = x.agent; begin_time = x.begin_time }
    end_time ← awake_end w
    (ends, awake) ← sort_woken now xs
    some (if leb end_time now then (w.agent ∷ ends, awake) else (ends, w ∷ awake))

  unfoldable pub wake_up : SimTime → ActivityEngine A → Option (List A × ActivityEngine A)
  wake_up now e = do
    let (woken, q) = TimeQueue.pop now e.asleep_q
    (ends, awake) ← sort_woken now woken
    some (ends, record e { asleep_q = q; awake_q = e.awake_q ++ awake })

  unfoldable pub notify_all : AgentEvent → SimTime → List A → Option (List A)
  notify_all event now [] = some []
  notify_all event now (a ∷ others) = do
    a' ← l.notify_event event now a
    others' ← notify_all event now others
    some (a' ∷ others')

  unfoldable pub notify_awake :
      SimTime → List (AwakeSimulationAgent A) → Option (List (AwakeSimulationAgent A))
  notify_awake now [] = some []
  notify_awake now (w ∷ ws) = do
    end_time ← awake_end w
    agent ← l.notify_event (woke_up end_time) now w.agent
    ws' ← notify_awake now ws
    some (record w { agent = agent } ∷ ws')

  -- The `while` of `end` with a round for each agent: those before the index `i`, and those from it on.
  unfoldable pub end_loop :
      ℕ
      → SimTime
      → (passed rest : List (AwakeSimulationAgent A))
      → Option (List A × List (AwakeSimulationAgent A))
  end_loop zero now passed rest = some ([], passed ++ rest)
  end_loop (suc n) now passed [] = some ([], passed)
  end_loop (suc n) now passed (w ∷ ws) = do
    end_time ← awake_end w
    let removed =
        end_loop n now passed (fill_gap ws) >>= λ (ends, awake). some (w.agent ∷ ends, awake)
    let kept = end_loop n now (passed ++ w ∷ []) ws
    (if leb end_time now then removed else kept)

  unfoldable pub end : SimTime → ActivityEngine A → Option (List A × ActivityEngine A)
  end now e = end_loop (length e.awake_q) now [] e.awake_q >>= λ (ends, awake).
      some (ends, record e { awake_q = awake })

  unfoldable pub notify_end_all : SimTime → List A → Option (List A × List (ActivityEvent F))
  notify_end_all now [] = some ([], [])
  notify_end_all now (a ∷ others) = do
    act ← l.curr_act a
    coord ← act.coord
    a' ← l.notify_event activity_finished now a
    (others', events) ← notify_end_all now others
    some (a' ∷ others', activity_end now (l.id a) act.link_id coord act.act_type ∷ events)

  unfoldable pub do_step :
      Tick → List A → ActivityEngine A → Option (List A × ActivityEngine A × List (ActivityEvent F))
  do_step now agents e = do
    now_time ← tick_to_time e.clock now
    (e₁, started) ← receive_all now now_time agents e
    (woken, e₂) ← wake_up now_time e₁
    notified ← notify_all (woke_up now_time) now_time woken
    awake ← notify_awake now_time e₂.awake_q
    (ends, e₃) ← end now_time (record e₂ { awake_q = awake })
    (out, ended) ← notify_end_all now_time (notified ++ ends)
    some (out, e₃, started ++ ended)
