-- ===== src/Identifiers/Tests.antt =====
-- Stores with two names of type 3 and one of type 4.
use parallel_qsim_rust.Prelude.{ℕ, ◌≡◌, refl, some, ◌>>=◌, [], ◌∷◌, map, length}
use parallel_qsim_rust.Prelude.Maps.{get, put}
use parallel_qsim_rust.Identifiers.Store.{
  Text, UntypedId, IdStore, store_new, find, ids_of, create_id_with_type_id, replace_ids, get_id,
  get_from_ext,
}
use parallel_qsim_rust.Identifiers.Dense.{IsDense, IsCreated, create_id_with_type_id-IsCreated}
use parallel_qsim_rust.Identifiers.Reload.{replace_ids-externals}

abbrev car : Text
car = b'c' ∷ b'a' ∷ b'r' ∷ []

abbrev bus : Text
bus = b'b' ∷ b'u' ∷ b's' ∷ []

empty-IsDense : IsDense store_new
unfolding store_new find get
empty-IsDense t = record { listed = λ x n e. cc; numbered = λ n v e. cc }

first :
    (v : UntypedId) × (s' : IdStore) × (create_id_with_type_id store_new car 3 ≡ some (v, s'))
    × IsCreated store_new car 3 v s'
first = create_id_with_type_id-IsCreated store_new car 3 empty-IsDense

abbrev one_name : IdStore
one_name = first.1

create_id_with_type_id-IsCreated_example :
    (v : UntypedId) × (s' : IdStore) × (create_id_with_type_id one_name bus 3 ≡ some (v, s'))
    × IsCreated one_name bus 3 v s'
create_id_with_type_id-IsCreated_example =
    create_id_with_type_id-IsCreated one_name bus 3 first.3.dense

abbrev two_names : IdStore
two_names = create_id_with_type_id-IsCreated_example.1

replace_ids-externals_example :
    (s : IdStore) × (replace_ids store_new (map (λ v. v.external) (ids_of two_names 3)) 3 ≡ some s)
    × IsDense s
    × ((n : ℕ) (v : UntypedId) → get_id two_names 3 n ≡ some v → get_id s 3 n ≡ some v)
    × (length (ids_of s 3) ≡ length (ids_of two_names 3))
replace_ids-externals_example =
    replace_ids-externals two_names store_new 3 create_id_with_type_id-IsCreated_example.3.dense
      empty-IsDense

runs :
    (create_id_with_type_id store_new car 3
      >>= (λ r. create_id_with_type_id r.1 bus 3)
      >>= (λ r. create_id_with_type_id r.1 car 3)
      >>= (λ r. get_from_ext r.1 3 bus))
    ≡ some (record { internal = 1; external = bus })
unfolding store_new create_id_with_type_id get_from_ext find get put
runs = refl
