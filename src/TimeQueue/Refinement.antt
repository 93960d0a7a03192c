-- ===== src/TimeQueue/Refinement.antt =====
-- rust_qsim/src/simulation/time_queue.rs implements the schedule of TimeQueue/Schedule.
use mathlib.Core.List.{cons-ne-nil}
use parallel_qsim_rust.Prelude.{
  ℕ, zero, suc, ◌+◌, ◌≤◌, ◌<◌, ◌≡◌, refl, ap, none, some, true, false, leb, if◌then◌else◌, List, [],
  ◌∷◌, map, length, All, arith, inl, inr, Bool-cases, Option-cases, u64_mod, wrapping_add,
}
use parallel_qsim_rust.Time.{SimTime}
use parallel_qsim_rust.TimeQueue.{
  EndTime, Entry, Heap, TimeQueue, entry_cmp, is_lt, heap_pop, pop_due, pop, add,
}
use parallel_qsim_rust.TimeQueue.Schedule.{
  Schedule, enqueue, due, later, NotBefore, IsSorted, nothing_due,
}

module _ {T : Type 0} where
  unfoldable pub insert : Entry T → List (Entry T) → List (Entry T)
  insert e [] = e ∷ []
  insert e (m ∷ s) = if is_lt (entry_cmp e m) then m ∷ insert e s else e ∷ m ∷ s

  unfoldable pub sort : Heap T → List (Entry T)
  unfolding insert
  sort [] = []
  sort (e ∷ h) = insert e (sort h)

  abbrev pub timed : Entry T → SimTime × T
  timed e = (e.end_time, e.value)

  -- The schedule that a heap stands for: its entries by time and order of arrival.
  abbrev pub view : Heap T → Schedule T
  view h = map timed (sort h)

  -- The order of every entry is below the counter.
  abbrev pub IsFresh : TimeQueue T → Type 0
  IsFresh t = All (λ e. e.order < t.counter) t.q

  heap_pop-none : (h : Heap T) → heap_pop h ≡ none → h ≡ []
  unfolding heap_pop
  heap_pop-none [] _ = refl
  heap_pop-none (e ∷ h) p = ground (arith, p)

  -- The heap gives its entries in the order of `sort`.
  heap_pop-sort :
      (h : Heap T) (m : Entry T) (rest : Heap T)
      → heap_pop h ≡ some (m, rest)
      → (sort h ≡ m ∷ sort rest) × (length h ≡ suc (length rest))
  unfolding heap_pop sort insert
  heap_pop-sort [] m rest p = cc
  heap_pop-sort (e ∷ h) m rest p = elim (Option-cases (heap_pop h)) [
    | inl none_left ↦ ground (arith, none_left, heap_pop-none h none_left)
    | inr ((n, r), found) ↦ ground (arith, found, heap_pop-sort h n r found)
  ]

  insert-NotBefore :
      (t : SimTime) (e : Entry T) (s : List (Entry T))
      → t ≤ e.end_time
      → NotBefore t (map timed s)
      → NotBefore t (map timed (insert e s))
  unfolding insert
  insert-NotBefore t e [] h _ = (h, tt)
  insert-NotBefore t e (m ∷ s) h (b, bs) = ground (arith, insert-NotBefore t e s h bs)

  NotBefore-trans : (t u : SimTime) (s : Schedule T) → t ≤ u → NotBefore u s → NotBefore t s
  NotBefore-trans t u [] h _ = tt
  NotBefore-trans t u (p ∷ s) h (b, bs) = (omega arith, NotBefore-trans t u s h bs)

  is_lt-le : (e m : Entry T) → is_lt (entry_cmp e m) ≡ true → m.end_time ≤ e.end_time
  unfolding entry_cmp
  is_lt-le e m h = ground arith

  not-is_lt-le : (e m : Entry T) → is_lt (entry_cmp e m) ≡ false → e.end_time ≤ m.end_time
  unfolding entry_cmp
  not-is_lt-le e m h = ground arith

  insert-IsSorted :
      (e : Entry T) (s : List (Entry T))
      → IsSorted (map timed s)
      → IsSorted (map timed (insert e s))
  unfolding insert
  insert-IsSorted e [] _ = (tt, tt)
  insert-IsSorted e (m ∷ s) (b, bs) = elim (Bool-cases (is_lt (entry_cmp e m))) [
    | inl after ↦
        let order = is_lt-le e m after in
        rw after (insert-NotBefore m.end_time e s order b, insert-IsSorted e s bs)
    | inr before ↦
        let order = not-is_lt-le e m before in
        rw before ((order, NotBefore-trans e.end_time m.end_time _ order b), (b, bs))
  ]

  -- The schedule of every heap is sorted.
  pub view-IsSorted : (h : Heap T) → IsSorted (view h)
  unfolding sort
  view-IsSorted [] = tt
  view-IsSorted (e ∷ h) = insert-IsSorted e (sort h) (view-IsSorted h)

  insert-enqueue :
      (e : Entry T) (s : List (Entry T))
      → All (λ m. m.order < e.order) s
      → map timed (insert e s) ≡ enqueue e.end_time e.value (map timed s)
  unfolding insert enqueue entry_cmp
  insert-enqueue e [] _ = refl
  insert-enqueue e (m ∷ s) (h, hs) = ground (arith, insert-enqueue e s hs)

  insert-All :
      (n : ℕ) (e : Entry T) (s : List (Entry T))
      → e.order < n
      → All (λ m. m.order < n) s
      → All (λ m. m.order < n) (insert e s)
  unfolding insert
  insert-All n e [] b _ = (b, tt)
  insert-All n e (m ∷ s) b (h, hs) = ground (arith, insert-All n e s b hs)

  sort-All : (n : ℕ) (h : Heap T) → All (λ m. m.order < n) h → All (λ m. m.order < n) (sort h)
  unfolding sort
  sort-All n [] _ = tt
  sort-All n (e ∷ h) (b, bs) = insert-All n e (sort h) b (sort-All n h bs)

  module _ (f : ℕ) (now : SimTime) (h : Heap T) (m : Entry T) (rest : Heap T)
      (found : heap_pop h ≡ some (m, rest)) where
    pop_due_more :
        leb m.end_time now ≡ true
        → let r = pop_due f now rest in pop_due (suc f) now h ≡ (m.value ∷ r.0, r.1)
    unfolding pop_due
    pop_due_more early = ground (arith, found, early)

    pop_due_stop : leb m.end_time now ≡ false → pop_due (suc f) now h ≡ ([], h)
    unfolding pop_due
    pop_due_stop late = ground (arith, found, late)

  due_cons :
      (now : SimTime) (p : SimTime × T) (s : Schedule T)
      → (due now (p ∷ s) ≡ (if leb p.0 now then p.1 ∷ due now s else due now s))
        × (later now (p ∷ s) ≡ (if leb p.0 now then later now s else p ∷ later now s))
  unfolding due later
  due_cons now p s = (refl, refl)

  pop_due_step :
      (f : ℕ) (now : SimTime) (h : Heap T) (m : Entry T) (rest : Heap T)
      → heap_pop h ≡ some (m, rest)
      → (let r = pop_due f now rest in
          (r.0 ≡ due now (view rest)) × (view r.1 ≡ later now (view rest)))
      → let r = pop_due (suc f) now h in (r.0 ≡ due now (view h)) × (view r.1 ≡ later now (view h))
  pop_due_step f now h m rest found (taken, left) =
      let sorted : view h ≡ timed m ∷ view rest = ap (map timed) (heap_pop-sort h m rest found).0 in
      let order : IsSorted (timed m ∷ view rest) = rw sorted at (view-IsSorted h) in
      let nothing = nothing_due now m.end_time (view rest) order.0 in
      elim (Bool-cases (leb m.end_time now)) [
        | inl early ↦ ground (
          arith,
          sorted,
          early,
          taken,
          left,
          pop_due_more f now h m rest found early,
          due_cons now (timed m) (view rest),
        )
        | inr late ↦ ground (
          arith,
          sorted,
          late,
          nothing late,
          pop_due_stop f now h m rest found late,
          due_cons now (timed m) (view rest),
        )
      ]

  pop_due-due :
      (f : ℕ) (now : SimTime) (h : Heap T)
      → length h ≤ f
      → let r = pop_due f now h in (r.0 ≡ due now (view h)) × (view r.1 ≡ later now (view h))
  unfolding pop_due
  pop_due-due zero now [] _ = unfold sort due later in (refl, refl)
  pop_due-due zero now (e ∷ h) b = absurd (omega arith)
  pop_due-due (suc f) now (e ∷ h) b = elim (Option-cases (heap_pop (e ∷ h))) [
    | inl none_left ↦ absurd (cons-ne-nil e h (heap_pop-none (e ∷ h) none_left))
    | inr ((m, rest), found) ↦
        pop_due_step f now (e ∷ h) m rest found
          (pop_due-due f now rest (omega (arith, (heap_pop-sort (e ∷ h) m rest found).1)))
  ]
  pop_due-due (suc f) now [] b = unfold sort due later heap_pop in (refl, refl)

  All-lt_mono : (m n : ℕ) (h : Heap T) → m ≤ n → All (λ e. e.order < m) h → All (λ e. e.order < n) h
  All-lt_mono m n [] le _ = tt
  All-lt_mono m n (e ∷ h) le (b, bs) = (omega arith, All-lt_mono m n h le bs)

  -- Adding puts the value behind everything due no later, as long as the counter does not wrap.
  pub view-add :
      ⦃d : EndTime T⦄ (v : T) (now : SimTime) (t : TimeQueue T)
      → IsFresh t
      → t.counter + 1 < u64_mod
      → (view (add v now t).q ≡ enqueue (d.end_time v now) v (view t.q)) × IsFresh (add v now t)
  unfolding add sort
  view-add ⦃d⦄ v now t fresh fits =
      let grow = All-lt_mono t.counter (wrapping_add t.counter 1) t.q (omega arith) fresh in
      (insert-enqueue _ (sort t.q) (sort-All t.counter t.q fresh), (omega arith, grow))

  -- `pop` returns exactly the values due at `now`, earliest first and first come first served, and
  -- keeps the rest.
  pub view-pop :
      (now : SimTime) (t : TimeQueue T)
      → let r = pop now t in
        (r.0 ≡ due now (view t.q)) × (view r.1.q ≡ later now (view t.q)) × (r.1.counter ≡ t.counter)
  unfolding pop
  view-pop now t = let r = pop_due-due (length t.q) now t.q (omega arith) in (r.0, r.1, refl)

  heap_pop-All :
      (n : ℕ) (h : Heap T) (m : Entry T) (rest : Heap T)
      → heap_pop h ≡ some (m, rest)
      → All (λ e. e.order < n) h
      → All (λ e. e.order < n) (m ∷ rest)
  unfolding heap_pop
  heap_pop-All n [] m rest p _ = cc
  heap_pop-All n (e ∷ h) m rest p (b, bs) = elim (Option-cases (heap_pop h)) [
    | inl none_left ↦ ground (arith, none_left)
    | inr ((k, r), found) ↦ ground (arith, found, heap_pop-All n h k r found bs)
  ]

  pop_due-All :
      (n f : ℕ) (now : SimTime) (h : Heap T)
      → All (λ e. e.order < n) h
      → All (λ e. e.order < n) (pop_due f now h).1
  unfolding pop_due
  pop_due-All n zero now h bs = bs
  pop_due-All n (suc f) now h bs = elim (Option-cases (heap_pop h)) [
    | inl none_left ↦ ground (arith, none_left)
    | inr ((m, rest), found) ↦
        let kept = heap_pop-All n h m rest found bs in
        ground (arith, found, pop_due-All n f now rest kept.1)
  ]

  pub pop-IsFresh : (now : SimTime) (t : TimeQueue T) → IsFresh t → IsFresh (pop now t).1
  unfolding pop
  pop-IsFresh now t fresh = pop_due-All t.counter (length t.q) now t.q fresh
