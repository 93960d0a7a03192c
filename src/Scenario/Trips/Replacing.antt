-- ===== src/Scenario/Trips/Replacing.antt =====
-- scenario/trip_structure_utils.rs: what replacing the elements of a trip does to the plan.
use parallel_qsim_rust.Prelude.{
  ℕ, zero, suc, ◌+◌, ◌-◌, ◌≤◌, ◌≡◌, ◌∙◌, refl, sym, ap, subst, some, ◌>>=◌, List, [], ◌∷◌, ◌++◌,
  length, length-append, append_assoc, take, get_elem?, arith,
}
use parallel_qsim_rust.Population.{InternalPlanElement, as_activity}
use parallel_qsim_rust.Routing.Graph.{drop}
use parallel_qsim_rust.Routing.Converter.Slices.{drop-length, take-length, get_range-append}
use parallel_qsim_rust.Scenario.Trips.{
  TripSpan, activity_at, origin, destination, trip_elements, replace_trip_elements,
}

module _ {A : Type 0} where
  split_at :
      (n : ℕ) (es : List A)
      → n ≤ length es
      → (xs : List A) × (zs : List A) × (es ≡ xs ++ zs) × (length xs ≡ n)
  split_at zero es le = ([], es, refl, refl)
  split_at (suc n) [] le = absurd (omega arith)
  split_at (suc n) (e ∷ es) le =
      let (xs, zs, whole, size) = split_at n es (omega arith) in
      (e ∷ xs, zs, ap (λ t. e ∷ t) whole, omega (arith, size))

  get_elem-before :
      (xs ys zs : List A) (k : ℕ)
      → k + 1 ≤ length xs
      → get_elem? (xs ++ ys) k ≡ get_elem? (xs ++ zs) k
  get_elem-before [] ys zs k le = absurd (omega arith)
  get_elem-before (x ∷ xs) ys zs zero le = refl
  get_elem-before (x ∷ xs) ys zs (suc k) le = get_elem-before xs ys zs k (omega arith)

  get_elem-after : (xs zs : List A) → get_elem? (xs ++ zs) (length xs) ≡ get_elem? zs 0
  get_elem-after [] zs = refl
  get_elem-after (x ∷ xs) zs = get_elem-after xs zs

  -- What comes after the first two of three parts.
  past_two :
      {B : Type 0} (f : List A → ℕ → B) (xs ys zs : List A) (d : ℕ)
      → d ≡ length xs + length ys
      → f (xs ++ (ys ++ zs)) d ≡ f ((xs ++ ys) ++ zs) (length (xs ++ ys))
  past_two f xs ys zs d e =
      ap (λ k. f (xs ++ (ys ++ zs)) k) (omega (arith, e, length-append {0} xs ys))
      ∙ ap (λ t. f t (length (xs ++ ys))) (sym (append_assoc xs ys zs))

module _ {F : Type 0} (s : TripSpan) (xs zs : List (InternalPlanElement F))
    (before : length xs ≡ s.origin_index + 1) where
  abbrev replaced : List (InternalPlanElement F) → TripSpan
  replaced new = record {
    origin_index = s.origin_index;
    destination_index = s.origin_index + length new + 1;
  }

  replace-parts :
      (d : ℕ) (old new : List (InternalPlanElement F))
      → d ≡ length xs + length old
      → replace_trip_elements (record s { destination_index = d }) (xs ++ (old ++ zs)) new
        ≡ some (replaced new, xs ++ (new ++ zs))
  unfolding replace_trip_elements
  replace-parts d old new e =
      rw (get_range-append xs old zs (s.origin_index + 1) d (sym before) e, replace_trip_elements)
        (ap some (
          ap (λ t. (replaced new, t))
            (ap (λ t. t ++ new ++ drop d (xs ++ (old ++ zs)))
                (ap (λ k. take k (xs ++ (old ++ zs))) (sym before) ∙ take-length xs (old ++ zs))
              ∙ ap (λ t. xs ++ new ++ t)
                  (past_two (λ t k. drop k t) xs old zs d e ∙ drop-length (xs ++ old) zs)
              ∙ append_assoc xs new zs)))

  elements-replaced :
      (new : List (InternalPlanElement F))
      → trip_elements (replaced new) (xs ++ (new ++ zs)) ≡ some new
  unfolding trip_elements
  elements-replaced new =
      get_range-append xs new zs (s.origin_index + 1) (s.origin_index + length new + 1) (sym before)
        (omega (arith, before))

  origin-replaced :
      (old new : List (InternalPlanElement F))
      → origin (replaced new) (xs ++ (new ++ zs)) ≡ origin s (xs ++ (old ++ zs))
  unfolding origin activity_at
  origin-replaced old new =
      ap (λ e. e >>= as_activity)
        (get_elem-before xs (new ++ zs) (old ++ zs) s.origin_index (omega (arith, before)))

  element-after :
      (d : ℕ) (old : List (InternalPlanElement F))
      → d ≡ length xs + length old
      → get_elem? (xs ++ (old ++ zs)) d ≡ get_elem? zs 0
  element-after d old e =
      past_two (λ t k. get_elem? t k) xs old zs d e ∙ get_elem-after (xs ++ old) zs

  destination-replaced :
      (d : ℕ) (old new : List (InternalPlanElement F))
      → d ≡ length xs + length old
      → destination (replaced new) (xs ++ (new ++ zs))
        ≡ destination (record s { destination_index = d }) (xs ++ (old ++ zs))
  unfolding destination activity_at
  destination-replaced d old new e =
      ap (λ e. e >>= as_activity)
        (element-after (s.origin_index + length new + 1) new (omega (arith, before))
          ∙ sym (element-after d old e))

module _ {F : Type 0} where
  pub record IsReplaced (s : TripSpan) (es new : List (InternalPlanElement F)) : Type 0 where
    pub old : List (InternalPlanElement F)
    pub span : TripSpan
    pub plan : List (InternalPlanElement F)
    pub before : trip_elements s es ≡ some old
    pub does : replace_trip_elements s es new ≡ some (span, plan)
    pub after : trip_elements span plan ≡ some new
    pub back : replace_trip_elements span plan old ≡ some (s, es)
    pub same_origin : origin span plan ≡ origin s es
    pub same_destination : destination span plan ≡ destination s es

  -- The elements of a span within the plan are replaced, without a panic: the new span has the new elements, the two
  -- ends are what they were, and to put the old elements back gives the span and the plan from before.
  pub replace_trip_elements-IsReplaced :
      (s : TripSpan) (es new : List (InternalPlanElement F))
      → s.origin_index + 1 ≤ s.destination_index
      → s.destination_index ≤ length es
      → IsReplaced s es new
  replace_trip_elements-IsReplaced s es new apart within =
      let (xs, rest, whole, before) = split_at (s.origin_index + 1) es (omega arith) in
      let long : length es ≡ length xs + length rest =
        ap length whole ∙ length-append {0} xs rest in
      let (old, zs, parts, size) =
        split_at (s.destination_index - (s.origin_index + 1)) rest (omega (arith, before, long)) in
      let at_end : s.destination_index ≡ length xs + length old = omega (arith, before, size) in
      let own_end : s.origin_index + length old + 1 ≡ s.destination_index =
        omega (arith, before, size) in
      let own : replaced s xs zs before old ≡ s =
        ap (λ d. record s { destination_index = d }) own_end in
      let all : es ≡ xs ++ (old ++ zs) = whole ∙ ap (λ t. xs ++ t) parts in
      subst (λ t. IsReplaced s t new) (sym all)
        (record {
          old = old;
          span = replaced s xs zs before new;
          plan = xs ++ (new ++ zs);
          before =
              subst (λ (r : TripSpan). trip_elements r (xs ++ (old ++ zs)) ≡ some old) own
                (elements-replaced s xs zs before old);
          does = replace-parts s xs zs before s.destination_index old new at_end;
          after = elements-replaced s xs zs before new;
          back =
              replace-parts (replaced s xs zs before new) xs zs before
                (s.origin_index + length new + 1) new old (omega (arith, before))
              ∙ ap (λ (r : TripSpan). some (r, xs ++ (old ++ zs))) own;
          same_origin = origin-replaced s xs zs before old new;
          same_destination = destination-replaced s xs zs before s.destination_index old new at_end;
        })
