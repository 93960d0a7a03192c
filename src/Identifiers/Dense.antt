-- ===== src/Identifiers/Dense.antt =====
-- The numbers of a type are the places of its names, each name has one, and creating names keeps that.
use parallel_qsim_rust.Prelude.{
  ℕ, zero, suc, ◌+◌, ◌<◌, ◌≡◌, ◌∙◌, refl, sym, subst, Bool, true, false, ◌==◌, ◌&&◌, Bool-cases,
  Option-cases, inl, inr, if◌then◌else◌, Option, none, some, List, [], ◌∷◌, ◌++◌, length,
  length-append, get_elem?, arith,
}
use parallel_qsim_rust.Prelude.Maps.{get, get-put}
use parallel_qsim_rust.Identifiers.Store.{
  Text, text_eq, UntypedId, IdStore, find, ids_of, names_of, or_default, touch, add_id,
  create_id_with_type_id, get_id, get_from_ext,
}

pub text_eq_refl : (x : Text) → text_eq x x ≡ true
text_eq_refl [] = refl
text_eq_refl (x ∷ xs) = ground (arith, text_eq_refl xs)

pub text_eq-eq : (x y : Text) → text_eq x y ≡ true → x ≡ y
text_eq-eq [] [] h = refl
text_eq-eq [] (y ∷ ys) h = cc
text_eq-eq (x ∷ xs) [] h = cc
text_eq-eq (x ∷ xs) (y ∷ ys) h =
    let heads : x ≡ y = ground arith in
    let tails : text_eq xs ys ≡ true = ground arith in let rest = text_eq-eq xs ys tails in cc

pub find-append :
    (x : Text) (m : List (Text × ℕ)) (y : Text) (n : ℕ)
    → find x (m ++ (y, n) ∷ [])
      ≡ elim (find x m) [ none ↦ (if text_eq y x then some n else none) | some k ↦ some k ]
unfolding find
find-append x [] y n = refl
find-append x ((z, k) ∷ m) y n = ground (arith, find-append x m y n)

pub get_elem?-append_last :
    (xs : List UntypedId) (v : UntypedId) (j : ℕ)
    → get_elem? (xs ++ v ∷ []) j ≡ (if length xs == j then some v else get_elem? xs j)
get_elem?-append_last [] v zero = ground arith
get_elem?-append_last [] v (suc j) = ground arith
get_elem?-append_last (x ∷ xs) v zero = ground arith
get_elem?-append_last (x ∷ xs) v (suc j) = ground (arith, get_elem?-append_last xs v j)

get_elem?-lt :
    (xs : List UntypedId) (j : ℕ) (v : UntypedId) → get_elem? xs j ≡ some v → j < length xs
get_elem?-lt [] j v h = cc
get_elem?-lt (x ∷ xs) zero v h = omega arith
get_elem?-lt (x ∷ xs) (suc j) v h = omega (arith, get_elem?-lt xs j v h)

-- Of one type: a name stands under its number, and what stands under a number has that number and is found.
pub record IsNumbered (ids : List UntypedId) (names : List (Text × ℕ)) : Type 0 where
  pub listed :
      (x : Text) (n : ℕ)
      → find x names ≡ some n
      → get_elem? ids n ≡ some (record { internal = n; external = x })
  pub numbered :
      (n : ℕ) (v : UntypedId)
      → get_elem? ids n ≡ some v
      → (v.internal ≡ n) × (find v.external names ≡ some n)

abbrev pub IsDense : IdStore → Type 0
IsDense s = (t : ℕ) → IsNumbered (or_default (get t s.ids)) (or_default (get t s.mapping))

append-IsNumbered :
    (ids : List UntypedId) (names : List (Text × ℕ)) (x : Text)
    → IsNumbered ids names
    → find x names ≡ none
    → IsNumbered
        (ids ++ record { internal = length ids; external = x } ∷ [])
        (names ++ (x, length ids) ∷ [])
append-IsNumbered ids names x h fresh =
    let new : UntypedId = record { internal = length ids; external = x } in
    record {
      listed = λ y n e. elim (Option-cases (find y names)) [
        | inl gone ↦
            let same : text_eq x y ≡ true = ground (arith, find-append y names x (length ids)) in
            let number : n ≡ length ids = ground (arith, find-append y names x (length ids)) in
            let names_eq = text_eq-eq x y same in ground (arith, get_elem?-append_last ids new n)
        | inr (k, found) ↦
            let number : k ≡ n = ground (arith, find-append y names x (length ids)) in
            let old = h.listed y k found in
            let low = get_elem?-lt ids k (record { internal = k; external = y }) old in
            ground (arith, get_elem?-append_last ids new n)
      ];
      numbered = λ n v e. elim (Bool-cases (length ids == n)) [
        | inl last ↦
            let is_new : new ≡ v = ground (arith, get_elem?-append_last ids new n) in
            let at_n : length ids ≡ n = ground arith in
            subst
              (λ (w : UntypedId).
                (w.internal ≡ n) × (find w.external (names ++ (x, length ids) ∷ []) ≡ some n))
              is_new (at_n, ground (arith, find-append x names x (length ids), text_eq_refl x))
        | inr before ↦
            let old : get_elem? ids n ≡ some v = ground (arith, get_elem?-append_last ids new n) in
            let (num, found) = h.numbered n v old in
            (num, ground (arith, find-append v.external names x (length ids)))
      ];
    }

abbrev pub is_absent : {A : Type 0} → Option A → Bool
is_absent none = true
is_absent (some a) = false

-- What creating a name returns and changes.
pub record IsCreated (s : IdStore) (x : Text) (t : ℕ) (v : UntypedId) (s' : IdStore) : Type 0 where
  pub name : v.external ≡ x
  pub dense : IsDense s'
  pub by_number : get_id s' t v.internal ≡ some v
  pub by_name : get_from_ext s' t x ≡ some v
  -- Numbers that were given stay.
  pub kept : (u n : ℕ) (w : UntypedId) → get_id s u n ≡ some w → get_id s' u n ≡ some w
  pub names :
      (y : Text)
      → find y (names_of s' t) ≡ (if text_eq x y then some v.internal else find y (names_of s t))
  -- A name that was there keeps its number, and a new one gets the next.
  pub number : v.internal ≡ elim (find x (names_of s t)) [ none ↦ length (ids_of s t) | some n ↦ n ]
  pub count :
      (u : ℕ)
      → length (ids_of s' u)
        ≡ length (ids_of s u) + (if t == u && is_absent (find x (names_of s t)) then 1 else 0)

module _ (s : IdStore) (x : Text) (t : ℕ) (dense : IsDense s) where
  touched-IsCreated :
      (n : ℕ) (ids : List UntypedId)
      → find x (names_of s t) ≡ some n
      → get t s.ids ≡ some ids
      → IsCreated s x t (record { internal = n; external = x }) (touch t s)
  unfolding names_of ids_of get_id get_from_ext
  touched-IsCreated n ids found stored =
      let at_n = (dense t).listed x n found in
      let by_n : get_elem? ids n ≡ some (record { internal = n; external = x }) =
        rw stored at at_n in
      record {
        name = refl;
        dense = λ u. elim (Bool-cases (t == u)) [
          | inl same ↦
              let at_u : t ≡ u = ground arith in
              let names_eq : get u (touch t s).mapping ≡ some (names_of s t) =
                ground (arith, get-put t u (names_of s t) s.mapping) in
              rw names_eq
                (subst (λ k. IsNumbered (or_default (get k s.ids)) (names_of s t)) at_u (dense t))
          | inr other ↦
              let names_eq : get u (touch t s).mapping ≡ get u s.mapping =
                ground (arith, get-put t u (names_of s t) s.mapping) in
              rw names_eq (dense u)
        ];
        by_number = rw stored by_n;
        by_name = ground (arith, get-put t t (names_of s t) s.mapping, by_n);
        kept = λ u n w h. h;
        names = λ y. elim (Bool-cases (text_eq x y)) [
          | inl same ↦
              let at_y = text_eq-eq x y same in ground (arith, get-put t t (names_of s t) s.mapping)
          | inr other ↦ ground (arith, get-put t t (names_of s t) s.mapping)
        ];
        number = ground arith;
        count = λ u. ground arith;
      }

  abbrev next_id : UntypedId
  next_id = record { internal = length (ids_of s t); external = x }

  added-ids :
      (u : ℕ)
      → or_default (get u (add_id s x t).1.ids)
        ≡ (if t == u then ids_of s t ++ next_id ∷ [] else or_default (get u s.ids))
  unfolding add_id
  added-ids u = ground (arith, get-put t u (ids_of s t ++ next_id ∷ []) s.ids)

  added-names :
      (u : ℕ)
      → or_default (get u (add_id s x t).1.mapping) ≡ (
          if t == u
          then names_of s t ++ (x, length (ids_of s t)) ∷ []
          else or_default (get u s.mapping))
  unfolding add_id
  added-names u =
      ground (arith, get-put t u (names_of s t ++ (x, length (ids_of s t)) ∷ []) s.mapping)

  get_id-ids : (r : IdStore) (u n : ℕ) → get_id r u n ≡ get_elem? (or_default (get u r.ids)) n
  unfolding get_id
  get_id-ids r u n = ground arith

  module _ (fresh : find x (names_of s t) ≡ none) where
    added-IsDense : IsDense (add_id s x t).1
    unfolding ids_of names_of
    added-IsDense u = elim (Bool-cases (t == u)) [
      | inl same ↦ rw (added-ids u) (
          rw (added-names u)
            (rw same (append-IsNumbered (ids_of s t) (names_of s t) x (dense t) fresh)))
      | inr other ↦ rw (added-ids u) (rw (added-names u) (rw other (dense u)))
    ]

    added-kept :
        (u n : ℕ) (w : UntypedId) → get_id s u n ≡ some w → get_id (add_id s x t).1 u n ≡ some w
    unfolding ids_of
    added-kept u n w h = elim (Bool-cases (t == u)) [
      | inl same ↦
          let at_u : t ≡ u = ground arith in
          let old : get_elem? (ids_of s t) n ≡ some w =
            subst (λ k. get_elem? (or_default (get k s.ids)) n ≡ some w) (sym at_u)
              (sym (get_id-ids s u n) ∙ h) in
          get_id-ids (add_id s x t).1 u n
          ∙ rw (added-ids u) (
              rw same (
                ground (
                  arith,
                  get_elem?-append_last (ids_of s t) next_id n,
                  get_elem?-lt (ids_of s t) n w old,
                )))
      | inr other ↦
          get_id-ids (add_id s x t).1 u n ∙ rw (added-ids u) (rw other (sym (get_id-ids s u n) ∙ h))
    ]

    names_grown :
        (y : Text)
        → find y (names_of s t ++ (x, length (ids_of s t)) ∷ [])
          ≡ (if text_eq x y then some (length (ids_of s t)) else find y (names_of s t))
    names_grown y = elim (Bool-cases (text_eq x y)) [
      | inl same ↦
          let at_y = text_eq-eq x y same in
          rw (find-append y (names_of s t) x (length (ids_of s t)))
            (rw same (ground (arith, at_y, fresh)))
      | inr other ↦ ground (arith, find-append y (names_of s t) x (length (ids_of s t)))
    ]

    added-found :
        get_id (add_id s x t).1 t (length (ids_of s t)) ≡ some next_id
        → get_from_ext (add_id s x t).1 t x ≡ some next_id
    unfolding get_from_ext add_id names_of
    added-found number = ground (
      arith,
      number,
      get-put t t (names_of s t ++ (x, length (ids_of s t)) ∷ []) s.mapping,
      find-append x (names_of s t) x (length (ids_of s t)),
      text_eq_refl x,
    )

    added-IsCreated : IsCreated s x t next_id (add_id s x t).1
    unfolding names_of ids_of
    added-IsCreated =
        let here : (t == t) ≡ true = ground arith in
        let number : get_id (add_id s x t).1 t (length (ids_of s t)) ≡ some next_id =
          get_id-ids (add_id s x t).1 t (length (ids_of s t))
          ∙ rw (added-ids t) (
              rw here (
                ground
                  (arith, get_elem?-append_last (ids_of s t) next_id (length (ids_of s t))))) in
        record {
          name = refl;
          dense = added-IsDense;
          by_number = number;
          by_name = added-found number;
          kept = added-kept;
          names = λ y. rw (added-names t) (rw here (names_grown y));
          number = ground arith;
          count = λ u. elim (Bool-cases (t == u)) [
            | inl same ↦
                let at_u : t ≡ u = ground arith in
                rw (added-ids u) (
                  rw same (
                    subst
                      (λ k.
                        length (ids_of s t ++ next_id ∷ [])
                        ≡ length (ids_of s k)
                          + (if true && is_absent (find x (names_of s t)) then 1 else 0))
                      at_u (ground (arith, length-append (ids_of s t) (next_id ∷ [])))))
            | inr other ↦ rw (added-ids u) (rw other (omega arith))
          ];
        }

  pub create_id_with_type_id-IsCreated :
      (v : UntypedId) × (s' : IdStore) × (create_id_with_type_id s x t ≡ some (v, s'))
      × IsCreated s x t v s'
  unfolding create_id_with_type_id names_of
  create_id_with_type_id-IsCreated = elim (Option-cases (find x (names_of s t))) [
    | inl fresh ↦
        (next_id, (add_id s x t).1, rw (fresh, create_id_with_type_id) refl, added-IsCreated fresh)
    | inr (n, found) ↦ elim (Option-cases (get t s.ids)) [
      | inl gone ↦ absurd (ground (arith, (dense t).listed x n found))
      | inr (ids, stored) ↦
          let by_n : get_elem? ids n ≡ some (record { internal = n; external = x }) =
            rw stored at (dense t).listed x n found in
          (
            record { internal = n; external = x },
            touch t s,
            rw (found, create_id_with_type_id) (rw stored (rw by_n refl)),
            touched-IsCreated n ids found stored,
          )
    ]
  ]
