-- ===== src/TimeQueue.antt =====
-- rust_qsim/src/simulation/time_queue.rs: the queue of agents and vehicles ordered by time.
-- `std::collections::BinaryHeap` is a bag of entries here: `push` adds one, and `pop` removes one that
-- no other exceeds. The trait `EndTime` (agents/mod.rs) is an instance argument.
pub mod Refinement
pub mod Schedule
pub mod Trace
pub mod Conserve
pub mod Tests
use Prim.Native.Nat.{compare, Ordering}
use parallel_qsim_rust.Prelude.{
  ℕ, zero, suc, Option, none, some, Bool, true, false, leb, if◌then◌else◌, List, [], ◌∷◌, map,
  length, wrapping_add,
}
use parallel_qsim_rust.Time.{SimTime}

pub record EndTime (T : Type 0) : Type 0 where
  pub end_time : T → SimTime → SimTime

pub record Entry (T : Type 0) : Type 0 where
  pub end_time : SimTime
  pub order : ℕ
  pub value : T

abbrev pub then_with : Ordering → Ordering → Ordering
then_with Ordering.lt b = Ordering.lt
then_with Ordering.eq b = b
then_with Ordering.gt b = Ordering.gt

-- `Ord::cmp` of `Entry`, reversed in both keys.
unfoldable pub entry_cmp : {T : Type 0} → Entry T → Entry T → Ordering
entry_cmp a b = then_with (compare b.end_time a.end_time) (compare b.order a.order)

abbrev pub is_lt : Ordering → Bool
is_lt Ordering.lt = true
is_lt Ordering.eq = false
is_lt Ordering.gt = false

-- `BinaryHeap`.
abbrev pub Heap : Type 0 → Type 0
Heap T = List (Entry T)

abbrev pub keep_greater :
    {T : Type 0} → Entry T → Heap T → Option (Entry T × Heap T) → Option (Entry T × Heap T)
keep_greater e es none = some (e, [])
keep_greater e es (some (m, rest)) =
    if is_lt (entry_cmp e m) then some (m, e ∷ rest) else some (e, es)

-- The greatest entry and the others.
unfoldable pub heap_pop : {T : Type 0} → Heap T → Option (Entry T × Heap T)
heap_pop [] = none
heap_pop (e ∷ es) = keep_greater e es (heap_pop es)

pub record TimeQueue (T : Type 0) : Type 0 where
  pub q : Heap T
  pub counter : ℕ

unfoldable pub new : {T : Type 0} → TimeQueue T
new = record { q = []; counter = 0 }

unfoldable pub add : {T : Type 0} ⦃e : EndTime T⦄ → T → SimTime → TimeQueue T → TimeQueue T
add ⦃e⦄ value now t = record {
  q = record { end_time = e.end_time value now; order = t.counter; value = value } ∷ t.q;
  counter = wrapping_add t.counter 1;
}

-- The `while let` of `pop`, with a round left for each entry: the entries taken and those left.
unfoldable pub pop_due : {T : Type 0} → ℕ → SimTime → Heap T → List T × Heap T
pop_due zero now h = ([], h)
pop_due (suc f) now h = elim (heap_pop h) [
  | none ↦ ([], h)
  | some (m, rest) ↦
      let (taken, left) = pop_due f now rest in
      if leb m.end_time now then (m.value ∷ taken, left) else ([], h)
]

unfoldable pub pop : {T : Type 0} → SimTime → TimeQueue T → List T × TimeQueue T
unfolding pop_due heap_pop entry_cmp
pop now t = let (taken, left) = pop_due (length t.q) now t.q in (taken, record t { q = left })

-- All values, in no order that the caller may rely on.
unfoldable pub drain : {T : Type 0} → TimeQueue T → List T × TimeQueue T
drain t = (map (λ e. e.value) t.q, record t { q = [] })
