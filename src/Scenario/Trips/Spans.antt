-- ===== src/Scenario/Trips/Spans.antt =====
-- scenario/trip_structure_utils.rs: the trips that the loop finds.
use parallel_qsim_rust.Prelude.{
  ℕ, suc, ◌+◌, ◌<◌, ◌≤◌, ◌≡◌, ◌∙◌, ◌⊎◌, ◌-◌, sym, ap, subst, Bool, true, false, ◌==◌, ◌&&◌,
  Bool-cases, inl, inr, Option, none, some, List, [], ◌∷◌, get_elem?, ltb, count_if, arith,
}
use parallel_qsim_rust.Population.{InternalActivity, InternalPlanElement}
use parallel_qsim_rust.Scenario.Trips.{TripSpan, is_boundary, restart, trip_loop, get_trip_spans}

module _ {F : Type 0} where
  -- Whether there is an activity at the index, and it is no stage.
  abbrev pub boundary_at : (InternalActivity F → Bool) → Option (InternalPlanElement F) → Bool
  boundary_at stage none = false
  boundary_at stage (some e) = is_boundary stage e

-- Two boundaries with something and no boundary between them.
pub record IsTrip (boundary : ℕ → Bool) (o d : ℕ) : Type 0 where
  pub starts : boundary o ≡ true
  pub ends : boundary d ≡ true
  pub apart : o + 1 < d
  pub inside : (k : ℕ) → o < k → k < d → boundary k ≡ false

-- Trips one after the other, none before the index.
abbrev pub AreTrips : (ℕ → Bool) → ℕ → List TripSpan → Type 0
AreTrips boundary lo [] = Unit
AreTrips boundary lo (s ∷ spans) =
    (lo ≤ s.origin_index)
    × IsTrip boundary s.origin_index s.destination_index
    × AreTrips boundary s.destination_index spans

abbrev pub lists : ℕ → ℕ → List TripSpan → ℕ
lists o d = count_if (λ s. s.origin_index == o && s.destination_index == d)

-- What the loop remembers: the last boundary before the index.
abbrev IsLast : (ℕ → Bool) → ℕ → Option ℕ → Type 0
IsLast boundary i none = (k : ℕ) → k < i → boundary k ≡ false
IsLast boundary i (some o) =
    (o < i) × (boundary o ≡ true) × ((k : ℕ) → o < k → k < i → boundary k ≡ false)

IsLast-suc :
    (boundary : ℕ → Bool) (i : ℕ) (from : Option ℕ)
    → IsLast boundary i from
    → boundary i ≡ false
    → IsLast boundary (i + 1) from
IsLast-suc boundary i none h off = λ k below. elim (Bool-cases (k == i)) [
  | inl same ↦ let at_i : i ≡ k = ground arith in subst (λ j. boundary j ≡ false) at_i off
  | inr other ↦ h k (ground arith)
]
IsLast-suc boundary i (some o) (before, on, between) off = (
  omega arith,
  on,
  λ k above below. elim (Bool-cases (k == i)) [
    | inl same ↦ let at_i : i ≡ k = ground arith in subst (λ j. boundary j ≡ false) at_i off
    | inr other ↦ between k above (ground arith)
  ],
)

IsLast-some : (boundary : ℕ → Bool) (i : ℕ) → boundary i ≡ true → IsLast boundary (i + 1) (some i)
IsLast-some boundary i on = (omega arith, on, λ k above below. absurd (omega arith))

AreTrips-weaken :
    (boundary : ℕ → Bool) (lo hi : ℕ) (spans : List TripSpan)
    → lo ≤ hi
    → AreTrips boundary hi spans
    → AreTrips boundary lo spans
AreTrips-weaken boundary lo hi [] le h = h
AreTrips-weaken boundary lo hi (s ∷ spans) le (low, trip, rest) = (omega arith, trip, rest)

abbrev start_of : ℕ → Option ℕ → ℕ
start_of i none = i
start_of i (some o) = o

module _ {F : Type 0} (stage : InternalActivity F → Bool) (boundary : ℕ → Bool) where
  abbrev Agrees : ℕ → List (InternalPlanElement F) → Type 0
  Agrees i es = (k : ℕ) → boundary (i + k) ≡ boundary_at stage (get_elem? es k)

  Agrees-head :
      (i : ℕ) (e : InternalPlanElement F) (es : List (InternalPlanElement F))
      → Agrees i (e ∷ es)
      → boundary i ≡ is_boundary stage e
  Agrees-head i e es h = ap boundary (omega arith) ∙ h 0

  Agrees-tail :
      (i : ℕ) (e : InternalPlanElement F) (es : List (InternalPlanElement F))
      → Agrees i (e ∷ es)
      → Agrees (i + 1) es
  Agrees-tail i e es h = λ k. ap boundary (omega arith) ∙ h (suc k)

  passed-AreTrips :
      (i : ℕ) (from : Option ℕ) (spans : List TripSpan)
      → AreTrips boundary (start_of (i + 1) from) spans
      → AreTrips boundary (start_of i from) spans
  passed-AreTrips i none spans h = AreTrips-weaken boundary i (i + 1) spans (omega arith) h
  passed-AreTrips i (some o) spans h = h

  -- At a boundary: a trip up to it, if there is something between, and the trips that start there or later.
  restart-AreTrips :
      (i : ℕ) (from : Option ℕ) (spans : List TripSpan)
      → IsLast boundary i from
      → boundary i ≡ true
      → AreTrips boundary i spans
      → AreTrips boundary (start_of i from) (restart i from spans)
  restart-AreTrips i none spans last on h = h
  restart-AreTrips i (some o) spans (before, start, between) on h =
      elim (Bool-cases (ltb (o + 1) i)) [
        | inl far ↦ rw far (
          omega arith,
          record { starts = start; ends = on; apart = ground (arith, far); inside = between },
          h,
        )
        | inr near ↦ rw near (AreTrips-weaken boundary o i spans (ground arith) h)
      ]

  loop-AreTrips :
      (es : List (InternalPlanElement F)) (i : ℕ) (from : Option ℕ)
      → Agrees i es
      → IsLast boundary i from
      → AreTrips boundary (start_of i from) (trip_loop stage es i from)
  unfolding trip_loop
  loop-AreTrips [] i from h last = _
  loop-AreTrips (e ∷ es) i from h last =
      let later : Agrees (i + 1) es = Agrees-tail i e es h in
      let here : boundary i ≡ is_boundary stage e = Agrees-head i e es h in
      elim (Bool-cases (is_boundary stage e)) [
        | inl is ↦
            let on : boundary i ≡ true = here ∙ is in
            rw is (
              restart-AreTrips i from (trip_loop stage es (i + 1) (some i)) last on
                (loop-AreTrips es (i + 1) (some i) later (IsLast-some boundary i on)))
        | inr is_not ↦ rw is_not (
            passed-AreTrips i from (trip_loop stage es (i + 1) from) (
              loop-AreTrips es (i + 1) from later
                (IsLast-suc boundary i from last (here ∙ is_not))))
      ]

  -- The last boundary before the end of a trip is its start.
  IsLast-start :
      (o d : ℕ) (from : Option ℕ) → IsTrip boundary o d → IsLast boundary d from → from ≡ some o
  IsLast-start o d none trip last =
      absurd (ground (arith, last o (omega (arith, trip.apart)), trip.starts))
  IsLast-start o d (some p) trip (before, on, between) = ap some (go (Bool-cases (p == o)))
    where
      go : (p == o ≡ true) ⊎ (p == o ≡ false) → p ≡ o
      go (inl same) = ground arith
      go (inr other) = elim (Bool-cases (ltb p o)) [
        | inl early ↦
            absurd
              (ground (arith, between o (ground arith) (omega (arith, trip.apart)), trip.starts))
        | inr late ↦ absurd (ground (arith, trip.inside p (ground arith) before, on))
      ]

  restart-lists :
      (o d i : ℕ) (from : Option ℕ) (spans : List TripSpan)
      → lists o d spans ≤ lists o d (restart i from spans)
  restart-lists o d i none spans = omega arith
  restart-lists o d i (some p) spans = ground arith

  restart-hit :
      (o d i : ℕ) (from : Option ℕ) (spans : List TripSpan)
      → o + 1 < d
      → i ≡ d
      → from ≡ some o
      → 1 ≤ lists o d (restart i from spans)
  restart-hit o d i from spans apart at_d is_o =
      subst (λ f. 1 ≤ lists o d (restart i f spans)) (sym is_o)
        (subst (λ j. 1 ≤ lists o d (restart j (some o) spans)) (sym at_d) (ground (arith, apart)))

  -- No boundary stands at `i`, and one at `d`.
  apart_from : (i d : ℕ) → i ≤ d → boundary i ≡ false → boundary d ≡ true → i + 1 ≤ d
  apart_from i d le off on = elim (Bool-cases (i == d)) [
    | inl same ↦
        let at_d : i ≡ d = ground arith in
        absurd (ground (arith, subst (λ j. boundary j ≡ false) at_d off, on))
    | inr other ↦ ground arith
  ]

  loop-lists :
      (o d : ℕ)
      → IsTrip boundary o d
      → (es : List (InternalPlanElement F)) (i : ℕ) (from : Option ℕ) → Agrees i es
      → IsLast boundary i from
      → i ≤ d
      → 1 ≤ lists o d (trip_loop stage es i from)
  unfolding trip_loop
  loop-lists o d trip [] i from h last le =
      let off : boundary d ≡ false = ap boundary (omega arith) ∙ h (d - i) in
      absurd (ground (arith, off, trip.ends))
  loop-lists o d trip (e ∷ es) i from h last le =
      let later : Agrees (i + 1) es = Agrees-tail i e es h in
      let here : boundary i ≡ is_boundary stage e = Agrees-head i e es h in
      elim (Bool-cases (is_boundary stage e)) [
        | inl is ↦
            let rest = trip_loop stage es (i + 1) (some i) in
            rw is (elim (Bool-cases (i == d)) [
              | inl same ↦
                  let at_d : i ≡ d = ground arith in
                  restart-hit o d i from rest trip.apart at_d
                    (IsLast-start o d from trip (subst (λ j. IsLast boundary j from) at_d last))
              | inr other ↦
                  let listed : 1 ≤ lists o d rest =
                    loop-lists o d trip es (i + 1) (some i) later
                      (IsLast-some boundary i (here ∙ is)) (ground arith) in
                  omega (arith, listed, restart-lists o d i from rest)
            ])
        | inr is_not ↦ rw is_not (
            loop-lists o d trip es (i + 1) from later
              (IsLast-suc boundary i from last (here ∙ is_not))
              (apart_from i d le (here ∙ is_not) trip.ends))
      ]

module _ {F : Type 0} (es : List (InternalPlanElement F)) (stage : InternalActivity F → Bool) where
  -- Every span that is returned is a trip: it goes from an activity that is no stage to the next one, with something
  -- between them. Each starts where the one before ends, or later.
  pub get_trip_spans-AreTrips :
      AreTrips (λ k. boundary_at stage (get_elem? es k)) 0 (get_trip_spans es stage)
  unfolding get_trip_spans
  get_trip_spans-AreTrips =
      loop-AreTrips stage (λ k. boundary_at stage (get_elem? es k)) es 0 none
        (λ k. ap (λ j. boundary_at stage (get_elem? es j)) (omega arith))
        (λ k below. absurd (omega arith))

  -- Every trip of the plan is among the spans that are returned.
  pub get_trip_spans-lists :
      (o d : ℕ)
      → IsTrip (λ k. boundary_at stage (get_elem? es k)) o d
      → 1 ≤ lists o d (get_trip_spans es stage)
  unfolding get_trip_spans
  get_trip_spans-lists o d trip =
      loop-lists stage (λ k. boundary_at stage (get_elem? es k)) o d trip es 0 none
        (λ k. ap (λ j. boundary_at stage (get_elem? es j)) (omega arith))
        (λ k below. absurd (omega arith)) (omega arith)
