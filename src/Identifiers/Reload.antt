-- ===== src/Identifiers/Reload.antt =====
-- Names that are loaded in the order of their numbers get the same numbers.
use parallel_qsim_rust.Prelude.{
  ℕ, zero, suc, ◌+◌, ◌≡◌, ◌≢◌, ◌∙◌, refl, sym, ap, subst, true, ◌==◌, Bool-cases, inl, inr,
  if◌then◌else◌, Option, none, some, List, [], ◌∷◌, length, map, get_elem?, arith,
}
use parallel_qsim_rust.Prelude.Maps.{Map, get, get-put}
use parallel_qsim_rust.Identifiers.Store.{
  Text, text_eq, UntypedId, IdStore, find, ids_of, names_of, or_default, create_all, replace_ids,
  clear, get_id,
}
use parallel_qsim_rust.Identifiers.Dense.{
  text_eq-eq, IsNumbered, IsDense, create_id_with_type_id-IsCreated,
}

-- No name twice, and none that the store has for the type.
abbrev pub AreNew : List (Text × ℕ) → List Text → Type 0
AreNew names [] = Unit
AreNew names (x ∷ xs) =
    (find x names ≡ none) × ((k : ℕ) → get_elem? xs k ≢ some x) × AreNew names xs

AreNew-step :
    (names names' : List (Text × ℕ)) (x : Text) (n : ℕ) (xs : List Text)
    → ((y : Text) → find y names' ≡ (if text_eq x y then some n else find y names))
    → ((k : ℕ) → get_elem? xs k ≢ some x)
    → AreNew names xs
    → AreNew names' xs
AreNew-step names names' x n [] h absent new = tt
AreNew-step names names' x n (y ∷ ys) h absent (fresh, once, rest) = (
  elim (Bool-cases (text_eq x y)) [
    | inl same ↦ absurd (absent 0 (ap some (sym (text_eq-eq x y same))))
    | inr other ↦ h y ∙ rw other fresh
  ],
  once,
  AreNew-step names names' x n ys h (λ k. absent (suc k)) rest,
)

-- Every name of the list under the number of its place, counted from `base`.
abbrev pub AreNumberedFrom : ℕ → List Text → IdStore → ℕ → Type 0
AreNumberedFrom base xs s t =
    (k : ℕ) (x : Text)
    → get_elem? xs k ≡ some x
    → get_id s t (base + k) ≡ some (record { internal = base + k; external = x })

abbrev numbered : ℕ → Text → UntypedId
numbered n x = record { internal = n; external = x }

AreNumberedFrom-step :
    (base : ℕ) (x : Text) (xs : List Text) (s : IdStore) (t : ℕ)
    → get_id s t base ≡ some (numbered base x)
    → AreNumberedFrom (suc base) xs s t
    → AreNumberedFrom base (x ∷ xs) s t
AreNumberedFrom-step base x xs s t first rest zero y e =
    let here : base ≡ base + 0 = omega arith in
    let name : x ≡ y = cc in
    subst (λ n. get_id s t n ≡ some (numbered n y)) here
      (subst (λ z. get_id s t base ≡ some (numbered base z)) name first)
AreNumberedFrom-step base x xs s t first rest (suc k) y e =
    let here : suc base + k ≡ base + suc k = omega arith in
    subst (λ n. get_id s t n ≡ some (numbered n y)) here (rest k y e)

pub create_all-AreNumberedFrom :
    (xs : List Text) (s : IdStore) (t : ℕ)
    → IsDense s
    → AreNew (names_of s t) xs
    → (s' : IdStore) × (create_all s xs t ≡ some s')
      × IsDense s'
      × AreNumberedFrom (length (ids_of s t)) xs s' t
      × ((u n : ℕ) (w : UntypedId) → get_id s u n ≡ some w → get_id s' u n ≡ some w)
      × (length (ids_of s' t) ≡ length (ids_of s t) + length xs)
unfolding create_all
create_all-AreNumberedFrom [] s t dense new =
    (s, refl, dense, (λ k x e. cc), (λ u n w h. h), omega arith)
create_all-AreNumberedFrom (x ∷ xs) s t dense (fresh, once, new) =
    let (v, s₁, made, created) = create_id_with_type_id-IsCreated s x t dense in
    let new' = AreNew-step (names_of s t) (names_of s₁ t) x v.internal xs created.names once new in
    let (s', all, dense', later, kept, count) =
      create_all-AreNumberedFrom xs s₁ t created.dense new' in
    let number : v.internal ≡ length (ids_of s t) = created.number ∙ rw fresh refl in
    let grown : length (ids_of s₁ t) ≡ length (ids_of s t) + 1 = ground (arith, created.count t) in
    let next : length (ids_of s₁ t) ≡ suc (length (ids_of s t)) = omega arith in
    let is_v : ◌≡◌ {A = UntypedId} v (numbered (length (ids_of s t)) x) =
      λ i. record { internal = number i; external = created.name i } in
    let first : get_id s' t (length (ids_of s t)) ≡ some (numbered (length (ids_of s t)) x) =
      kept t (length (ids_of s t)) (numbered (length (ids_of s t)) x) (
        subst (λ n. get_id s₁ t n ≡ some (numbered (length (ids_of s t)) x)) number
          (subst (λ w. get_id s₁ t v.internal ≡ some w) is_v created.by_number)) in
    (
      s',
      rw made all,
      dense',
      AreNumberedFrom-step (length (ids_of s t)) x xs s' t first
          (subst (λ n. AreNumberedFrom n xs s' t) next later),
      λ u n w h. kept u n w (created.kept u n w h),
      omega arith,
    )

clear-ids :
    {A : Type 0} (t u : ℕ) (m : Map (List A))
    → or_default (get u (clear t m)) ≡ (if t == u then [] else or_default (get u m))
clear-ids t u m = ground (arith, get-put t u [] m)

module _ (s : IdStore) (t : ℕ) (dense : IsDense s) where
  cleared : IdStore
  cleared = record { ids = clear t s.ids; mapping = clear t s.mapping }

  cleared-IsDense : IsDense cleared
  unfolding cleared find
  cleared-IsDense u = elim (Bool-cases (t == u)) [
    | inl same ↦ rw (clear-ids t u s.ids) (
        rw (clear-ids t u s.mapping)
          (rw same (record { listed = λ x n e. cc; numbered = λ n v e. cc })))
    | inr other ↦ rw (clear-ids t u s.ids) (rw (clear-ids t u s.mapping) (rw other (dense u)))
  ]

get_elem?-map :
    (xs : List UntypedId) (k : ℕ) (y : Text)
    → get_elem? (map (λ v. v.external) xs) k ≡ some y
    → (w : UntypedId) × (get_elem? xs k ≡ some w) × (w.external ≡ y)
get_elem?-map [] k y h = cc
get_elem?-map (x ∷ xs) zero y h = (x, refl, cc)
get_elem?-map (x ∷ xs) (suc k) y h = get_elem?-map xs k y h

get_elem?-map-some :
    (xs : List UntypedId) (k : ℕ) (w : UntypedId)
    → get_elem? xs k ≡ some w
    → get_elem? (map (λ v. v.external) xs) k ≡ some w.external
get_elem?-map-some [] k w h = cc
get_elem?-map-some (x ∷ xs) zero w h =
    let same : x ≡ w = cc in ap (λ (v : UntypedId). some v.external) same
get_elem?-map-some (x ∷ xs) (suc k) w h = get_elem?-map-some xs k w h

module _ (ids : List UntypedId) (names : List (Text × ℕ)) (dense : IsNumbered ids names) where
  -- The names from a place on are all different.
  externals-AreNew :
      (base : ℕ) (suffix : List UntypedId)
      → ((k : ℕ) (v : UntypedId) → get_elem? suffix k ≡ some v → get_elem? ids (base + k) ≡ some v)
      → AreNew [] (map (λ v. v.external) suffix)
  unfolding find
  externals-AreNew base [] at = tt
  externals-AreNew base (v ∷ suffix) at = (
    refl,
    λ k h.
        let (w, here, same) = get_elem?-map suffix k v.external h in
        let (_, first) = dense.numbered (base + 0) v (at 0 v refl) in
        let (_, again) = dense.numbered (base + suc k) w (at (suc k) w here) in
        let once : ◌≡◌ {A = Option ℕ} (some (base + 0)) (some (base + suc k)) =
          sym first ∙ (ap (λ (x : Text). find x names) (sym same) ∙ again) in
        let numbers : base + 0 ≡ base + suc k = cc in absurd (omega (arith, numbers)),
    externals-AreNew (suc base) suffix λ k w h.
        let next : base + suc k ≡ suc base + k = omega arith in
        subst (λ n. get_elem? ids n ≡ some w) next (at (suc k) w h),
  )

AreNumberedFrom-start :
    (base : ℕ) (xs : List Text) (s : IdStore) (t n : ℕ) (x : Text)
    → base ≡ 0
    → AreNumberedFrom base xs s t
    → get_elem? xs n ≡ some x
    → get_id s t n ≡ some (numbered n x)
AreNumberedFrom-start base xs s t n x zero_base h e =
    let same : base + n ≡ n = omega arith in
    subst (λ k. get_id s t k ≡ some (numbered k x)) same (h n x e)

get_id-get_elem? : (s : IdStore) (t n : ℕ) → get_id s t n ≡ get_elem? (or_default (get t s.ids)) n
unfolding get_id
get_id-get_elem? s t n = ground arith

length-externals : (xs : List UntypedId) → length (map (λ v. v.external) xs) ≡ length xs
length-externals [] = refl
length-externals (x ∷ xs) = ap suc (length-externals xs)

-- Where a store is given the names that another store has for a type, in the order of their numbers, it returns
-- without a panic, stays consistent, and each name has the number that it had there.
pub replace_ids-externals :
    (written reader : IdStore) (t : ℕ)
    → IsDense written
    → IsDense reader
    → (s : IdStore) × (replace_ids reader (map (λ v. v.external) (ids_of written t)) t ≡ some s)
      × IsDense s
      × ((n : ℕ) (v : UntypedId) → get_id written t n ≡ some v → get_id s t n ≡ some v)
      × (length (ids_of s t) ≡ length (ids_of written t))
unfolding replace_ids names_of ids_of cleared
replace_ids-externals written reader t dense other =
    let ids = or_default (get t written.ids) in
    let here : (t == t) ≡ true = ground arith in
    let none_ids : or_default (get t (cleared reader t other).ids) ≡ [] =
      clear-ids t t reader.ids ∙ rw here refl in
    let none_names : or_default (get t (cleared reader t other).mapping) ≡ [] =
      clear-ids t t reader.mapping ∙ rw here refl in
    let new = externals-AreNew ids (or_default (get t written.mapping)) (dense t) 0 ids (λ k v h.
      let same : k ≡ 0 + k = omega arith in subst (λ n. get_elem? ids n ≡ some v) same h) in
    let (s, all, dense', later, _, count) =
      create_all-AreNumberedFrom (map (λ v. v.external) ids) (cleared reader t other) t
        (cleared-IsDense reader t other)
        (subst (λ (m : List (Text × ℕ)). AreNew m (map (λ v. v.external) ids)) (sym none_names)
          new) in
    let base : length (ids_of (cleared reader t other) t) ≡ 0 = ap length none_ids in
    (
      s,
      all,
      dense',
      λ n v h.
          let at_n = sym (get_id-get_elem? written t n) ∙ h in
          let number = ((dense t).numbered n v at_n).0 in
          let is_v : ◌≡◌ {A = UntypedId} (numbered n v.external) v =
            λ i. record { internal = sym number i; external = v.external } in
          subst (λ w. get_id s t n ≡ some w) is_v
            (AreNumberedFrom-start (length (ids_of (cleared reader t other) t))
              (map (λ w. w.external) ids) s t n v.external base later
              (get_elem?-map-some ids n v at_n)),
      omega (arith, base, count, length-externals ids),
    )
