-- ===== src/TimeQueue/Schedule.antt =====
-- What rust_qsim/src/simulation/time_queue.rs promises: a list of values with their times, earliest
-- first, and first come first served among equal times.
use parallel_qsim_rust.Prelude.{
  ◌≤◌, ◌≡◌, refl, false, leb, if◌then◌else◌, List, [], ◌∷◌, All, arith,
}
use parallel_qsim_rust.Time.{SimTime}

abbrev pub Schedule : Type 0 → Type 0
Schedule T = List (SimTime × T)

-- Behind everything that is due no later.
unfoldable pub enqueue : {T : Type 0} → SimTime → T → Schedule T → Schedule T
enqueue t v [] = (t, v) ∷ []
enqueue t v ((u, w) ∷ s) = if leb u t then (u, w) ∷ enqueue t v s else (t, v) ∷ (u, w) ∷ s

-- The values due at `now`, and what is due later.
unfoldable pub due : {T : Type 0} → SimTime → Schedule T → List T
due now [] = []
due now ((t, v) ∷ s) = if leb t now then v ∷ due now s else due now s

unfoldable pub later : {T : Type 0} → SimTime → Schedule T → Schedule T
later now [] = []
later now ((t, v) ∷ s) = if leb t now then later now s else (t, v) ∷ later now s

abbrev pub NotBefore : {T : Type 0} → SimTime → Schedule T → Type 0
NotBefore t = All λ p. t ≤ p.0

-- Times never fall along the list.
abbrev pub IsSorted : {T : Type 0} → Schedule T → Type 0
IsSorted [] = Unit {0}
IsSorted ((t, v) ∷ s) = NotBefore t s × IsSorted s

pub nothing_due :
    {T : Type 0} (now t : SimTime) (s : Schedule T)
    → NotBefore t s
    → leb t now ≡ false
    → (due now s ≡ []) × (later now s ≡ s)
unfolding due later
nothing_due now t [] _ h = (refl, refl)
nothing_due now t ((u, v) ∷ s) (b, bs) h = ground (arith, nothing_due now t s bs h)
