-- ===== src/TimeQueue/Trace.antt =====
-- Whole histories of rust_qsim/src/simulation/time_queue.rs, against the schedule.
use parallel_qsim_rust.Prelude.{
  ◌+◌, ◌<◌, ◌≡◌, refl, ap, ◌∙◌, List, [], ◌∷◌, length, arith, u64_mod, wrapping_add,
}
use parallel_qsim_rust.Time.{SimTime}
use parallel_qsim_rust.TimeQueue.{EndTime, TimeQueue, pop, add, new}
use parallel_qsim_rust.TimeQueue.Schedule.{Schedule, enqueue, due, later}
use parallel_qsim_rust.TimeQueue.Refinement.{view, IsFresh, view-add, view-pop, pop-IsFresh, sort}

-- A call with its time.
pub data Call (T : Type 0) : Type 0 where
  adds : T → SimTime → Call T
  pops : SimTime → Call T

module _ {T : Type 0} ⦃d : EndTime T⦄ where
  -- What the calls to `pop` return, in order.
  unfoldable pub run : TimeQueue T → List (Call T) → List (List T)
  run t [] = []
  run t (adds v now ∷ cs) = run (add v now t) cs
  run t (pops now ∷ cs) = let (taken, t') = pop now t in taken ∷ run t' cs

  -- The same of a schedule.
  unfoldable pub run_schedule : Schedule T → List (Call T) → List (List T)
  run_schedule s [] = []
  run_schedule s (adds v now ∷ cs) = run_schedule (enqueue (d.end_time v now) v s) cs
  run_schedule s (pops now ∷ cs) = due now s ∷ run_schedule (later now s) cs

  add_counter :
      (v : T) (now : SimTime) (t : TimeQueue T) → (add v now t).counter ≡ wrapping_add t.counter 1
  unfolding add
  add_counter v now t = refl

  run-view :
      (t : TimeQueue T) (cs : List (Call T))
      → IsFresh t
      → t.counter + length cs < u64_mod
      → run t cs ≡ run_schedule (view t.q) cs
  unfolding run run_schedule
  run-view t [] fresh fits = refl
  run-view t (adds v now ∷ cs) fresh fits =
      let (same, fresh') = view-add v now t fresh (omega arith) in
      run-view (add v now t) cs fresh' (omega (arith, add_counter v now t))
      ∙ ap (λ s. run_schedule s cs) same
  run-view t (pops now ∷ cs) fresh fits =
      let (taken, left, count) = view-pop now t in
      let rest = run-view (pop now t).1 cs (pop-IsFresh now t fresh) (omega arith) in
      rw (taken, rest, left) refl

  -- A queue that starts empty returns in every history of fewer than 2^64 calls what the schedule returns.
  pub run-new : (cs : List (Call T)) → length cs < u64_mod → run new cs ≡ run_schedule [] cs
  unfolding new sort
  run-new cs fits = run-view new cs tt (omega arith)
