-- ===== src/Prelude/Maps.antt =====
-- Maps and sets with integer keys (`IntMap`, `IntSet`, `HashMap`, `HashSet`): lists in the order of iteration, which the
-- code may not rely on.
use Prim.Native.Nat.{ℕ}
use mathlib.Core.Path.{◌≡◌, refl}
use mathlib.Core.Bool.{Bool, false, ◌||◌}
use mathlib.Core.Option.{Option, none, some}
use mathlib.Core.List.{List, [], ◌∷◌, ◌++◌}
use native.Mathlib.Omega.{arith}
use parallel_qsim_rust.Prelude.Tests.{◌==◌, if◌then◌else◌}

abbrev pub Map : Type 0 → Type 0
Map A = List (ℕ × A)

module _ {A : Type 0} where
  unfoldable pub get : ℕ → Map A → Option A
  get k [] = none
  get k ((j, a) ∷ m) = if j == k then some a else get k m

  -- Replaces the value of a key, or adds the key.
  unfoldable pub put : ℕ → A → Map A → Map A
  put k a [] = (k, a) ∷ []
  put k a ((j, b) ∷ m) = if j == k then (k, a) ∷ m else (j, b) ∷ put k a m

  pub get-put :
      (k j : ℕ) (a : A) (m : Map A) → get j (put k a m) ≡ (if k == j then some a else get j m)
  unfolding get put
  get-put k j a [] = refl
  get-put k j a ((i, b) ∷ m) = ground (arith, get-put k j a m)

  -- `IntMap::remove`.
  unfoldable pub erase : ℕ → Map A → Map A
  erase k [] = []
  erase k ((j, a) ∷ m) = if j == k then erase k m else (j, a) ∷ erase k m

  pub get-erase : (k j : ℕ) (m : Map A) → get j (erase k m) ≡ (if k == j then none else get j m)
  unfolding get erase
  get-erase k j [] = ground arith
  get-erase k j ((i, b) ∷ m) = ground (arith, get-erase k j m)

unfoldable pub contains : ℕ → List ℕ → Bool
contains k [] = false
contains k (j ∷ s) = j == k || contains k s

unfoldable pub activate : ℕ → List ℕ → List ℕ
unfolding contains
activate k s = if contains k s then s else s ++ k ∷ []

unfoldable pub deactivate : ℕ → List ℕ → List ℕ
deactivate k [] = []
deactivate k (j ∷ s) = if j == k then deactivate k s else j ∷ deactivate k s

pub contains-append : (k : ℕ) (s t : List ℕ) → contains k (s ++ t) ≡ (contains k s || contains k t)
unfolding contains
contains-append k [] t = refl
contains-append k (j ∷ s) t = ground (arith, contains-append k s t)

pub contains-activate :
    (k j : ℕ) (s : List ℕ) → contains j (activate k s) ≡ (k == j || contains j s)
unfolding activate
contains-activate k j s = ground (arith, contains-append j s (k ∷ []))

pub contains-deactivate :
    (k j : ℕ) (s : List ℕ) → contains j (deactivate k s) ≡ (if k == j then false else contains j s)
unfolding contains deactivate
contains-deactivate k j [] = ground arith
contains-deactivate k j (i ∷ s) = ground (arith, contains-deactivate k j s)
