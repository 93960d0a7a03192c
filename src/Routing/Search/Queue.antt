-- ===== src/Routing/Search/Queue.antt =====
-- `KeyedPriorityQueue` of the crate keyed_priority_queue, with priorities `Reverse<OrderedFloat<f64>>`.
use parallel_qsim_rust.Prelude.{
  ℕ, suc, ◌≡◌, ◌==◌, ◌≤◌, ◌+◌, Bool, true, false, if◌then◌else◌, Option, none, some,
}
use parallel_qsim_rust.Float.{F64}

-- `occupied` is `matches!(queue.entry(key), Entry::Occupied(_))`; `set_priority` is of an occupied entry.
pub record KeyedPriorityQueue (F Q : Type 0) : Type 0 where
  pub new : Q
  pub push : Q → ℕ → F → Q
  pub pop : Q → Option (ℕ × F × Q)
  pub occupied : Q → ℕ → Bool
  pub set_priority : Q → ℕ → F → Q

abbrev pub is_some : {A : Type 0} → Option A → Bool
is_some none = false
is_some (some a) = true

-- A popped key has a least number for its priority. `get_priority` and `len` are methods of the crate.
pub record QueueLaws (F Q : Type 0) (f : F64 F) (c : KeyedPriorityQueue F Q) : Type 0 where
  pub get_priority : Q → ℕ → Option F
  pub len : Q → ℕ
  pub new_empty : (k : ℕ) → get_priority c.new k ≡ none
  pub new_len : len c.new ≡ 0
  pub push_get :
      (q : Q) (k : ℕ) (p : F) (j : ℕ)
      → get_priority (c.push q k p) j ≡ (if k == j then some p else get_priority q j)
  pub push_len : (q : Q) (k : ℕ) (p : F) → len (c.push q k p) ≤ len q + 1
  pub occupied_iff : (q : Q) (k : ℕ) → c.occupied q k ≡ is_some (get_priority q k)
  pub set_get :
      (q : Q) (k : ℕ) (p : F) (j : ℕ)
      → c.occupied q k ≡ true
      → get_priority (c.set_priority q k p) j ≡ (if k == j then some p else get_priority q j)
  pub set_len : (q : Q) (k : ℕ) (p : F) → c.occupied q k ≡ true → len (c.set_priority q k p) ≡ len q
  pub pop_none : (q : Q) (k : ℕ) → c.pop q ≡ none → get_priority q k ≡ none
  pub pop_key :
      (q : Q) (k : ℕ) (p : F) (q' : Q) → c.pop q ≡ some (k, p, q') → get_priority q k ≡ some p
  pub pop_least :
      (q : Q) (k : ℕ) (p : F) (q' : Q) (j : ℕ) (r : F)
      → c.pop q ≡ some (k, p, q')
      → get_priority q j ≡ some r
      → f.lt r p ≡ false
  pub pop_get :
      (q : Q) (k : ℕ) (p : F) (q' : Q) (j : ℕ)
      → c.pop q ≡ some (k, p, q')
      → get_priority q' j ≡ (if k == j then none else get_priority q j)
  pub pop_len : (q : Q) (k : ℕ) (p : F) (q' : Q) → c.pop q ≡ some (k, p, q') → suc (len q') ≡ len q
