-- ===== src/TimeQueue/Conserve.antt =====
-- rust_qsim/src/simulation/time_queue.rs: no history loses or doubles a value.
use parallel_qsim_rust.Prelude.{
  ◌≡◌, ◌∙◌, refl, ap, List, [], ◌∷◌, ◌++◌, map, count_if, count_if-append, SameItems, append-nil,
  arith,
}
use parallel_qsim_rust.Time.{SimTime}
use parallel_qsim_rust.TimeQueue.{EndTime, Entry, TimeQueue, Heap, pop, add, new, drain}
use parallel_qsim_rust.TimeQueue.Schedule.{Schedule, due, later}
use parallel_qsim_rust.TimeQueue.Refinement.{view, timed, insert, sort, view-pop}
use parallel_qsim_rust.TimeQueue.Trace.{Call, adds, pops, run}

module _ {T : Type 0} where
  abbrev values : Heap T → List T
  values = map (λ e. e.value)

  abbrev scheduled : Schedule T → List T
  scheduled = map (λ p. p.1)

  -- The values that a history adds.
  abbrev pub added : List (Call T) → List T
  added [] = []
  added (adds v now ∷ cs) = v ∷ added cs
  added (pops now ∷ cs) = added cs

  abbrev pub joined : List (List T) → List T
  joined [] = []
  joined (xs ∷ xss) = xs ++ joined xss

  insert-SameItems :
      (e : Entry T) (s : List (Entry T))
      → SameItems (scheduled (map timed (insert e s))) (e.value ∷ scheduled (map timed s))
  unfolding insert
  insert-SameItems e [] p = refl
  insert-SameItems e (m ∷ s) p = ground (arith, insert-SameItems e s p)

  view-SameItems : (h : Heap T) → SameItems (scheduled (view h)) (values h)
  unfolding sort
  view-SameItems [] p = refl
  view-SameItems (e ∷ h) p = insert-SameItems e (sort h) p ∙ ground (arith, view-SameItems h p)

  due-SameItems :
      (now : SimTime) (s : Schedule T)
      → SameItems (due now s ++ scheduled (later now s)) (scheduled s)
  unfolding due later
  due-SameItems now [] p = refl
  due-SameItems now ((t, v) ∷ s) p = ground (
    arith,
    due-SameItems now s p,
    count_if-append p (due now s) (scheduled (later now s)),
    count_if-append p (due now s) (v ∷ scheduled (later now s)),
  )

  pop-SameItems :
      (now : SimTime) (t : TimeQueue T)
      → SameItems ((pop now t).0 ++ values (pop now t).1.q) (values t.q)
  pop-SameItems now t p =
      let (taken, left, _) = view-pop now t in
      omega (
        arith,
        count_if-append p (pop now t).0 (values (pop now t).1.q),
        count_if-append p (due now (view t.q)) (scheduled (later now (view t.q))),
        ap (count_if p) taken,
        ap (λ s. count_if p (scheduled s)) left,
        view-SameItems t.q p,
        view-SameItems (pop now t).1.q p,
        due-SameItems now (view t.q) p,
      )

module _ {T : Type 0} ⦃d : EndTime T⦄ where
  -- The queue behind a history.
  unfoldable pub run_queue : TimeQueue T → List (Call T) → TimeQueue T
  run_queue t [] = t
  run_queue t (adds v now ∷ cs) = run_queue (add v now t) cs
  run_queue t (pops now ∷ cs) = run_queue (pop now t).1 cs

  run-SameItems :
      (t : TimeQueue T) (cs : List (Call T))
      → SameItems (joined (run t cs) ++ values (run_queue t cs).q) (added cs ++ values t.q)
  unfolding run run_queue add
  run-SameItems t [] p = refl
  run-SameItems t (adds v now ∷ cs) p =
      let rest = run-SameItems (add v now t) cs p in
      let whole = count_if-append p (added cs) (v ∷ values t.q) in
      ground (arith, rest, whole, count_if-append p (added cs) (values t.q))
  run-SameItems t (pops now ∷ cs) p =
      let t' = (pop now t).1 in
      omega (
        arith,
        run-SameItems t' cs p,
        pop-SameItems now t p,
        count_if-append p (pop now t).0 (values t'.q),
        count_if-append p ((pop now t).0 ++ joined (run t' cs)) (values (run_queue t' cs).q),
        count_if-append p (pop now t).0 (joined (run t' cs)),
        count_if-append p (joined (run t' cs)) (values (run_queue t' cs).q),
        count_if-append p (added cs) (values t.q),
        count_if-append p (added cs) (values t'.q),
      )

  -- Whatever is added to a new queue in any history is returned exactly once: by one of the calls to `pop`, or by a
  -- `drain` at the end, which leaves nothing.
  pub run_history-SameItems :
      (cs : List (Call T))
      → SameItems (joined (run new cs) ++ (drain (run_queue new cs)).0) (added cs)
        × ((drain (run_queue new cs)).1.q ≡ [])
  unfolding drain new
  run_history-SameItems cs =
      (λ p. run-SameItems new cs p ∙ ap (count_if p) (append-nil (added cs)), refl)
