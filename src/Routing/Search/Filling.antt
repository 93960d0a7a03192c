-- ===== src/Routing/Search/Filling.antt =====
-- The queue and the costs at the start of a search.
use parallel_qsim_rust.Prelude.{
  ℕ, zero, suc, ◌+◌, ◌≤◌, ◌≡◌, refl, subst, ◌==◌, ltb, if◌then◌else◌, none, some, List, [], ◌∷◌,
  ◌++◌, length, length-append, arith,
}
use parallel_qsim_rust.Float.{F64}
use parallel_qsim_rust.Routing.Search.Queue.{KeyedPriorityQueue, QueueLaws}
use parallel_qsim_rust.Routing.Search.Costs.{Extremes, zero_cost}
use parallel_qsim_rust.Routing.Search.Core.{fill_queue, get_initial_queue}
use parallel_qsim_rust.Routing.Search.Reads.{get_or, get_or-append_last}

module _ {F Q : Type 0} {f : F64 F} (e : Extremes F) {c : KeyedPriorityQueue F Q}
    (ql : QueueLaws F Q f c) (from : ℕ) where
  abbrev pub start_cost : ℕ → F
  start_cost j = if j == from then zero_cost f else e.infinity

  -- The nodes below `hi` are in the queue, at the cost and the priority that they start with.
  pub record IsFilled (hi : ℕ) (q : Q) (ds : List F) : Type 0 where
    pub size : length ds ≡ hi
    pub len : ql.len q ≤ hi
    pub priorities :
        (j : ℕ) → ql.get_priority q j ≡ (if ltb j hi then some (start_cost j) else none)
    pub costs : (j : ℕ) → get_or ds j e.infinity ≡ (if ltb j hi then start_cost j else e.infinity)

  fill_queue-IsFilled :
      (node count : ℕ) (q : Q) (ds : List F)
      → IsFilled node q ds
      → IsFilled
          (node + count)
          (fill_queue f e c from node count q ds).0
          (fill_queue f e c from node count q ds).1
  unfolding fill_queue
  fill_queue-IsFilled node zero q ds h = let same : node + zero ≡ node = omega arith in rw same h
  fill_queue-IsFilled node (suc count) q ds h =
      let shift : node + suc count ≡ suc node + count = omega arith in
      rw shift (
        fill_queue-IsFilled (suc node) count (c.push q node (start_cost node))
          (ds ++ start_cost node ∷ [])
          (record {
            size = omega (arith, length-append {0} ds (start_cost node ∷ []), h.size);
            len = omega (arith, ql.push_len q node (start_cost node), h.len);
            priorities =
                λ j. ground (arith, ql.push_get q node (start_cost node) j, h.priorities j);
            costs = λ j.
                ground
                  (arith, get_or-append_last ds j (start_cost node) e.infinity, h.costs j, h.size);
          }))

  pub get_initial_queue-IsFilled :
      (n : ℕ) → IsFilled n (get_initial_queue f e c n from).0 (get_initial_queue f e c n from).1
  unfolding get_initial_queue
  get_initial_queue-IsFilled n =
      let same : zero + n ≡ n = omega arith in
      subst
        (λ k.
          IsFilled k (fill_queue f e c from 0 n c.new []).0 (fill_queue f e c from 0 n c.new []).1)
        same
        (fill_queue-IsFilled 0 n c.new [] (record {
          size = refl;
          len = omega (arith, ql.new_len);
          priorities = λ j. ground (arith, ql.new_empty j);
          costs = λ j. ground arith;
        }))
