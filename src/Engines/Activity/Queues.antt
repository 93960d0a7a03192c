-- ===== src/Engines/Activity/Queues.antt =====
-- rust_qsim/src/simulation/engines/activity_engine.rs: what its queues do to the values that they hold.
use parallel_qsim_rust.Prelude.{
  ℕ, suc, ◌+◌, ◌<◌, ◌≡◌, refl, ap, Bool, leb, if◌then◌else◌, List, [], ◌∷◌, length, All, count_if,
  arith, inl, inr, Bool-cases,
}
use parallel_qsim_rust.Time.{SimTime}
use parallel_qsim_rust.TimeQueue.Schedule.{Schedule, enqueue, due, later}
use parallel_qsim_rust.Engines.Activity.{split_last, fill_gap}

module _ {T : Type 0} where
  -- The values of a schedule that pass a test.
  abbrev pub scheduled : (T → Bool) → Schedule T → ℕ
  scheduled p s = count_if (λ e. p e.1) s

  pub scheduled-enqueue :
      (p : T → Bool) (t : SimTime) (v : T) (s : Schedule T)
      → scheduled p (enqueue t v s) ≡ (if p v then suc (scheduled p s) else scheduled p s)
  unfolding enqueue
  scheduled-enqueue p t v [] = refl
  scheduled-enqueue p t v ((u, w) ∷ s) = ground (arith, scheduled-enqueue p t v s)

  pub scheduled-due :
      (p : T → Bool) (now : SimTime) (s : Schedule T)
      → count_if p (due now s) + scheduled p (later now s) ≡ scheduled p s
  unfolding due later
  scheduled-due p now [] = omega arith
  scheduled-due p now ((t, v) ∷ s) = ground (arith, scheduled-due p now s)

  pub later-All : (now : SimTime) (s : Schedule T) → All (λ e. now < e.0) (later now s)
  unfolding later
  later-All now [] = tt
  later-All now ((t, v) ∷ s) = elim (Bool-cases (leb t now)) [
    | inl is_due ↦ rw is_due (later-All now s)
    | inr is_later ↦ rw is_later (ground (arith, is_later), later-All now s)
  ]

module _ {T : Type 0} (P : T → Type 0) where
  -- A property of every value of a schedule.
  abbrev pub AllOf : Schedule T → Type 0
  AllOf s = All (λ e. P e.1) s

  pub AllOf-enqueue : (t : SimTime) (v : T) (s : Schedule T) → P v → AllOf s → AllOf (enqueue t v s)
  unfolding enqueue
  AllOf-enqueue t v [] h _ = (h, tt)
  AllOf-enqueue t v ((u, w) ∷ s) h (k, ks) = elim (Bool-cases (leb u t)) [
    | inl before ↦ rw before (k, AllOf-enqueue t v s h ks)
    | inr behind ↦ rw behind (h, (k, ks))
  ]

  pub AllOf-due :
      (now : SimTime) (s : Schedule T) → AllOf s → All P (due now s) × AllOf (later now s)
  unfolding due later
  AllOf-due now [] _ = (tt, tt)
  AllOf-due now ((t, v) ∷ s) (h, hs) =
      let (taken, left) = AllOf-due now s hs in
      elim (Bool-cases (leb t now)) [
        | inl is_due ↦ rw is_due ((h, taken), left)
        | inr is_later ↦ rw is_later (taken, (h, left))
      ]

module _ {A : Type 0} where
  split_last-count :
      (p : A → Bool) (x : A) (xs : List A)
      → count_if p ((split_last x xs).0 ∷ (split_last x xs).1) ≡ count_if p (x ∷ xs)
  split_last-count p x [] = refl
  split_last-count p x (y ∷ ys) = ground (arith, split_last-count p y ys)

  pub fill_gap-count : (p : A → Bool) (xs : List A) → count_if p (fill_gap xs) ≡ count_if p xs
  unfolding fill_gap
  fill_gap-count p [] = refl
  fill_gap-count p (x ∷ xs) = split_last-count p x xs

  split_last-length : (x : A) (xs : List A) → length (split_last x xs).1 ≡ length xs
  split_last-length x [] = refl
  split_last-length x (y ∷ ys) = ap suc (split_last-length y ys)

  pub fill_gap-length : (xs : List A) → length (fill_gap xs) ≡ length xs
  unfolding fill_gap
  fill_gap-length [] = refl
  fill_gap-length (x ∷ xs) = ap suc (split_last-length x xs)

  split_last-All :
      (P : A → Type 0) (x : A) (xs : List A)
      → All P (x ∷ xs)
      → All P ((split_last x xs).0 ∷ (split_last x xs).1)
  split_last-All P x [] h = h
  split_last-All P x (y ∷ ys) (h, hs) = let (z, r) = split_last-All P y ys hs in (z, (h, r))

  pub fill_gap-All : (P : A → Type 0) (xs : List A) → All P xs → All P (fill_gap xs)
  unfolding fill_gap
  fill_gap-All P [] h = tt
  fill_gap-All P (x ∷ xs) h = split_last-All P x xs h
