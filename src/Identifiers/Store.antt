-- ===== src/Identifiers/Store.antt =====
-- id_store.rs: the store and its operations.
use parallel_qsim_rust.Prelude.{
  ℕ, Bool, true, false, ◌==◌, ◌&&◌, if◌then◌else◌, Option, none, some, ◌>>=◌, List, [], ◌∷◌, ◌++◌,
  length, get_elem?,
}
use parallel_qsim_rust.Prelude.Maps.{Map, get, put}

abbrev pub Text : Type 0
Text = List ℕ

abbrev pub text_eq : Text → Text → Bool
text_eq [] [] = true
text_eq [] (y ∷ ys) = false
text_eq (x ∷ xs) [] = false
text_eq (x ∷ xs) (y ∷ ys) = x == y && text_eq xs ys

pub record UntypedId : Type 0 where
  pub internal : ℕ
  pub external : Text

-- The inner maps are by the text of a name; a new name goes to the end.
pub record IdStore : Type 0 where
  pub ids : Map (List UntypedId)
  pub mapping : Map (List (Text × ℕ))

unfoldable pub find : Text → List (Text × ℕ) → Option ℕ
find x [] = none
find x ((y, n) ∷ m) = if text_eq y x then some n else find x m

unfoldable pub store_new : IdStore
store_new = record { ids = []; mapping = [] }

-- `entry(type_id).or_default()`.
abbrev pub or_default : {A : Type 0} → Option (List A) → List A
or_default none = []
or_default (some xs) = xs

unfoldable pub ids_of : IdStore → ℕ → List UntypedId
ids_of s t = or_default (get t s.ids)

unfoldable pub names_of : IdStore → ℕ → List (Text × ℕ)
names_of s t = or_default (get t s.mapping)

-- The store after `entry(type_id).or_default()` on the names of a type.
abbrev pub touch : ℕ → IdStore → IdStore
touch t s = record s { mapping = put t (or_default (get t s.mapping)) s.mapping }

-- A name that is not in the store gets the next number.
unfoldable pub add_id : IdStore → Text → ℕ → UntypedId × IdStore
unfolding ids_of names_of
add_id s id t =
    let next : UntypedId = record { internal = length (ids_of s t); external = id } in
    (
      next,
      record {
        ids = put t (ids_of s t ++ next ∷ []) s.ids;
        mapping = put t (names_of s t ++ (next.external, next.internal) ∷ []) s.mapping;
      },
    )

unfoldable pub create_id_with_type_id : IdStore → Text → ℕ → Option (UntypedId × IdStore)
unfolding add_id names_of
create_id_with_type_id s id t = elim (find id (names_of s t)) [
  | some internal ↦ do
    type_ids ← get t s.ids
    found ← get_elem? type_ids internal
    some (found, touch t s)
  | none ↦ some (add_id s id t)
]

-- `clear` of the entry of a type, where there is one.
abbrev pub clear : {A : Type 0} → ℕ → Map (List A) → Map (List A)
clear t m = elim (get t m) [ none ↦ m | some _ ↦ put t [] m ]

unfoldable pub create_all : IdStore → List Text → ℕ → Option IdStore
unfolding create_id_with_type_id
create_all s [] t = some s
create_all s (x ∷ xs) t = do (_, s') ← create_id_with_type_id s x t; create_all s' xs t

unfoldable pub replace_ids : IdStore → List Text → ℕ → Option IdStore
unfolding create_all
replace_ids s ids t = create_all (record { ids = clear t s.ids; mapping = clear t s.mapping }) ids t

unfoldable pub get_id : IdStore → ℕ → ℕ → Option UntypedId
get_id s t internal = do type_ids ← get t s.ids; get_elem? type_ids internal

-- A panic is the outer `none`.
unfoldable pub try_get_from_ext : IdStore → ℕ → Text → Option (Option UntypedId)
unfolding get_id
try_get_from_ext s t external = elim (get t s.mapping) [
  | none ↦ some none
  | some names ↦ elim (find external names) [
    | none ↦ some none
    | some index ↦ do id ← get_id s t index; some (some id)
  ]
]

unfoldable pub get_from_ext : IdStore → ℕ → Text → Option UntypedId
unfolding get_id
get_from_ext s t external = do
  names ← get t s.mapping
  index ← find external names
  get_id s t index
