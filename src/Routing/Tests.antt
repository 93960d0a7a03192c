-- ===== src/Routing/Tests.antt =====
-- Whole numbers up to 1000 for costs, with 1000 for infinity, and a queue with a slot for each node.
pub mod SearchRuns
pub mod ConverterRuns
use parallel_qsim_rust.Prelude.{
  ℕ, zero, suc, ◌+◌, ◌≡◌, ◌∙◌, ◌≤◌, refl, sym, ap, subst, ◌==◌, Bool, true, false, ltb, leb, min,
  if◌then◌else◌, Option, none, some, Bool-cases, inl, inr, List, [], ◌∷◌, length, arith,
}
use parallel_qsim_rust.Float.{F64}
use parallel_qsim_rust.Network.Tests.{whole_numbers}
use parallel_qsim_rust.Routing.Search.Queue.{KeyedPriorityQueue, QueueLaws, is_some}
use parallel_qsim_rust.Routing.Search.Costs.{Extremes, CostLaws}

abbrev pub capped : F64 ℕ
capped = record whole_numbers {
  lit = λ m e. m;
  add = λ a b. min (a + b) 1000;
  lt = ltb;
  eq = λ a b. a == b;
}

abbrev pub bounds : Extremes ℕ
bounds = record { infinity = 1000; is_nan = ltb 1000; is_finite = λ a. ltb a 1000 }

pub capped_laws : CostLaws ℕ capped bounds
capped_laws = record {
  zero_IsCost = ground arith;
  infinity_IsCost = ground arith;
  add_IsCost = λ a w p q. ground arith;
  lt_asym = λ a b h. ground arith;
  le_refl = λ a. ground arith;
  le_trans = λ a b c p q r h k. ground arith;
  le_infinity = λ a p. ground arith;
  eq_infinity = λ a p h. ground arith;
  infinity_eq = refl;
  le-add = λ a w p q. ground arith;
  add_mono = λ a b w p q r h. ground arith;
  add_zero_le = λ a p. ground arith;
}

abbrev pub Slots : Type 0
Slots = List (Option ℕ)

abbrev pub slot : Slots → ℕ → Option ℕ
slot [] k = none
slot (x ∷ xs) zero = x
slot (x ∷ xs) (suc k) = slot xs k

abbrev pub write : Slots → ℕ → Option ℕ → Slots
write [] zero p = p ∷ []
write [] (suc k) p = none ∷ write [] k p
write (x ∷ xs) zero p = p ∷ xs
write (x ∷ xs) (suc k) p = x ∷ write xs k p

abbrev pub taken : Slots → ℕ
taken [] = 0
taken (none ∷ xs) = taken xs
taken (some p ∷ xs) = suc (taken xs)

abbrev pub prefer : ℕ → Option (ℕ × ℕ) → Option (ℕ × ℕ)
prefer p none = some (0, p)
prefer p (some (k, r)) = if ltb r p then some (suc k, r) else some (0, p)

abbrev pub later : Option (ℕ × ℕ) → Option (ℕ × ℕ)
later none = none
later (some (k, r)) = some (suc k, r)

-- The first slot with a least number.
abbrev pub least : Slots → Option (ℕ × ℕ)
least [] = none
least (none ∷ xs) = later (least xs)
least (some p ∷ xs) = prefer p (least xs)

abbrev pub take_out : Slots → Option (ℕ × ℕ) → Option (ℕ × ℕ × Slots)
take_out q none = none
take_out q (some (k, p)) = some (k, p, write q k none)

abbrev pub slots : KeyedPriorityQueue ℕ Slots
slots = record {
  new = [];
  push = λ q k p. write q k (some p);
  pop = λ q. take_out q (least q);
  occupied = λ q k. is_some (slot q k);
  set_priority = λ q k p. write q k (some p);
}

slot-write :
    (q : Slots) (k : ℕ) (p : Option ℕ) (j : ℕ)
    → slot (write q k p) j ≡ (if k == j then p else slot q j)
slot-write [] zero p zero = ground arith
slot-write [] zero p (suc j) = ground arith
slot-write [] (suc k) p zero = ground arith
slot-write [] (suc k) p (suc j) = ground (arith, slot-write [] k p j)
slot-write (x ∷ xs) zero p zero = ground arith
slot-write (x ∷ xs) zero p (suc j) = ground arith
slot-write (x ∷ xs) (suc k) p zero = ground arith
slot-write (x ∷ xs) (suc k) p (suc j) = ground (arith, slot-write xs k p j)

taken-write : (q : Slots) (k p : ℕ) → taken (write q k (some p)) ≤ taken q + 1
taken-write [] zero p = omega arith
taken-write [] (suc k) p = omega (arith, taken-write [] k p)
taken-write (none ∷ xs) zero p = omega arith
taken-write (some r ∷ xs) zero p = omega arith
taken-write (none ∷ xs) (suc k) p = omega (arith, taken-write xs k p)
taken-write (some r ∷ xs) (suc k) p = omega (arith, taken-write xs k p)

taken-write_over :
    (q : Slots) (k p : ℕ) → is_some (slot q k) ≡ true → taken (write q k (some p)) ≡ taken q
taken-write_over [] k p h = cc
taken-write_over (none ∷ xs) zero p h = cc
taken-write_over (some r ∷ xs) zero p h = refl
taken-write_over (none ∷ xs) (suc k) p h = taken-write_over xs k p h
taken-write_over (some r ∷ xs) (suc k) p h = ap suc (taken-write_over xs k p h)

taken-write-none :
    (q : Slots) (k p : ℕ) → slot q k ≡ some p → suc (taken (write q k none)) ≡ taken q
taken-write-none [] k p h = cc
taken-write-none (none ∷ xs) zero p h = cc
taken-write-none (some r ∷ xs) zero p h = refl
taken-write-none (none ∷ xs) (suc k) p h = taken-write-none xs k p h
taken-write-none (some r ∷ xs) (suc k) p h = ap suc (taken-write-none xs k p h)

-- What `least` says of the slots.
abbrev IsLeast : Slots → Option (ℕ × ℕ) → Type 0
IsLeast q none = (j : ℕ) → slot q j ≡ none
IsLeast q (some (k, p)) = (slot q k ≡ some p) × ((j r : ℕ) → slot q j ≡ some r → ltb r p ≡ false)

later-none : (xs : Slots) → IsLeast xs none → (j : ℕ) → slot (none ∷ xs) j ≡ none
later-none xs h zero = refl
later-none xs h (suc i) = h i

later-low :
    (p : ℕ) (xs : Slots)
    → ((j r : ℕ) → slot xs j ≡ some r → ltb r p ≡ false)
    → (j r : ℕ) → slot (none ∷ xs) j ≡ some r
    → ltb r p ≡ false
later-low p xs low zero r e = cc
later-low p xs low (suc i) r e = low i r e

later-IsLeast : (xs : Slots) (o : Option (ℕ × ℕ)) → IsLeast xs o → IsLeast (none ∷ xs) (later o)
later-IsLeast xs none h = later-none xs h
later-IsLeast xs (some (k, p)) (at_k, low) = (at_k, later-low p xs low)

first-low :
    (p : ℕ) (xs : Slots)
    → ((j r : ℕ) → slot xs j ≡ some r → ltb r p ≡ false)
    → (j r : ℕ) → slot (some p ∷ xs) j ≡ some r
    → ltb r p ≡ false
first-low p xs h zero r e = let same : p ≡ r = cc in ground arith
first-low p xs h (suc i) r e = h i r e

second-low :
    (p k v : ℕ) (xs : Slots)
    → ltb v p ≡ true
    → ((j r : ℕ) → slot xs j ≡ some r → ltb r v ≡ false)
    → (j r : ℕ) → slot (some p ∷ xs) j ≡ some r
    → ltb r v ≡ false
second-low p k v xs less h zero r e = let same : p ≡ r = cc in ground arith
second-low p k v xs less h (suc i) r e = h i r e

prefer-IsLeast :
    (p : ℕ) (xs : Slots) (o : Option (ℕ × ℕ)) → IsLeast xs o → IsLeast (some p ∷ xs) (prefer p o)
prefer-IsLeast p xs none h = (refl, first-low p xs (λ j r e. absurd (ground (arith, h j))))
prefer-IsLeast p xs (some (k, v)) (at_k, low) = elim (Bool-cases (ltb v p)) [
  | inl less ↦ rw less (at_k, second-low p k v xs less low)
  | inr more ↦
      rw more (refl, first-low p xs (λ j r e. let le : ltb r v ≡ false = low j r e in ground arith))
]

least-IsLeast : (q : Slots) → IsLeast q (least q)
least-IsLeast [] = λ j. refl
least-IsLeast (none ∷ xs) = later-IsLeast xs (least xs) (least-IsLeast xs)
least-IsLeast (some p ∷ xs) = prefer-IsLeast p xs (least xs) (least-IsLeast xs)

-- A queue that pops, as the slots see it.
pop-least :
    (q : Slots) (o : Option (ℕ × ℕ)) (k p : ℕ) (q' : Slots)
    → IsLeast q o
    → take_out q o ≡ some (k, p, q')
    → (slot q k ≡ some p)
      × ((j r : ℕ) → slot q j ≡ some r → ltb r p ≡ false)
      × (write q k none ≡ q')
pop-least q none k p q' h e = cc
pop-least q (some (j, r)) k p q' (at_j, low) e =
    let ek : j ≡ k = cc in
    let er : r ≡ p = cc in
    let eq : write q j none ≡ q' = cc in
    (
      subst (λ i. slot q i ≡ some p) ek (subst (λ t. slot q j ≡ some t) er at_j),
      λ i t h. subst (λ x. ltb t x ≡ false) er (low i t h),
      subst (λ i. write q i none ≡ q') ek eq,
    )

pop-none :
    (q : Slots) (o : Option (ℕ × ℕ)) (j : ℕ) → IsLeast q o → take_out q o ≡ none → slot q j ≡ none
pop-none q none j h e = h j
pop-none q (some (k, p)) j h e = cc

pub slots_laws : QueueLaws ℕ Slots capped slots
slots_laws = record {
  get_priority = slot;
  len = taken;
  new_empty = λ k. refl;
  new_len = refl;
  push_get = λ q k p j. slot-write q k (some p) j;
  push_len = taken-write;
  occupied_iff = λ q k. refl;
  set_get = λ q k p j h. slot-write q k (some p) j;
  set_len = taken-write_over;
  pop_none = λ q k e. pop-none q (least q) k (least-IsLeast q) e;
  pop_key = λ q k p q' e. (pop-least q (least q) k p q' (least-IsLeast q) e).0;
  pop_least = λ q k p q' j r e h. (pop-least q (least q) k p q' (least-IsLeast q) e).1 j r h;
  pop_get = λ q k p q' j e.
      subst (λ (t : Slots). slot t j ≡ (if k == j then none else slot q j))
        (pop-least q (least q) k p q' (least-IsLeast q) e).2 (slot-write q k none j);
  pop_len = λ q k p q' e.
      let (at_k, _, eq) = pop-least q (least q) k p q' (least-IsLeast q) e in
      subst (λ (t : Slots). suc (taken t) ≡ taken q) eq (taken-write-none q k p at_k);
}
