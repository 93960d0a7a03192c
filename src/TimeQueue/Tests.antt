-- ===== src/TimeQueue/Tests.antt =====
-- Histories of rust_qsim/src/simulation/time_queue.rs on small inputs.
use parallel_qsim_rust.Prelude.{ℕ, ◌/◌, ◌≡◌, refl, List, [], ◌∷◌, ◌++◌, SameItems, arith}
use parallel_qsim_rust.TimeQueue.{EndTime, TimeQueue, add, pop, drain, new, heap_pop, entry_cmp}
use parallel_qsim_rust.TimeQueue.Schedule.{due, later}
use parallel_qsim_rust.TimeQueue.Refinement.{view, view-pop}
use parallel_qsim_rust.TimeQueue.Trace.{Call, adds, pops, run, run_schedule, run-new}
use parallel_qsim_rust.TimeQueue.Conserve.{run_queue, joined, added, run_history-SameItems}

-- A value ends at itself divided by ten.
instance abbrev tens : EndTime ℕ
tens = record { end_time = λ v now. v / 10 }

abbrev history : List (Call ℕ)
history = adds 31 0 ∷ adds 20 0 ∷ adds 32 1 ∷ pops 2 ∷ adds 30 2 ∷ pops 3 ∷ []

history-run : run new history ≡ (20 ∷ []) ∷ (31 ∷ 32 ∷ 30 ∷ []) ∷ []
unfolding run new add pop heap_pop entry_cmp
history-run = refl

run-new_example : run new history ≡ run_schedule [] history
run-new_example = run-new history (omega arith)

abbrev waiting_two : TimeQueue ℕ
waiting_two = add 20 0 (add 31 0 new)

view-pop_example :
    let r = pop 2 waiting_two in
    (r.0 ≡ due 2 (view waiting_two.q))
    × (view r.1.q ≡ later 2 (view waiting_two.q))
    × (r.1.counter ≡ waiting_two.counter)
view-pop_example = view-pop 2 waiting_two

run_history-SameItems_example :
    SameItems (joined (run new history) ++ (drain (run_queue new history)).0) (added history)
    × ((drain (run_queue new history)).1.q ≡ [])
run_history-SameItems_example = run_history-SameItems history
