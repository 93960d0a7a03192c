-- ===== src/Network/Link/Laws.antt =====
-- rust_qsim/src/simulation/network/link.rs: what the operations of every kind of link do to its vehicles.
use parallel_qsim_rust.Prelude.{
  ◌≢◌, ◌≡◌, refl, Bool, true, false, not, ◌||◌, some, none, List, [], ◌∷◌, ◌++◌, arith, inl, inr,
  count_if-append, SameItems, ◌⊎◌, ◌↔◌,
}
use mathlib.Core.List.{map-append, cons-ne-nil}
use parallel_qsim_rust.Time.{Tick}
use parallel_qsim_rust.Float.{F64, Vehicle}
use parallel_qsim_rust.Network.LinkState.{LinkPosition, q_start, waiting, LocalLink, VehicleQEntry}
use parallel_qsim_rust.Network.Link
use parallel_qsim_rust.Network.Link.{is_empty}
use parallel_qsim_rust.Network.Link.Moves.{vehicles}
use parallel_qsim_rust.Network.Link.Step.{on_link}
use parallel_qsim_rust.Network.Link.Split
use parallel_qsim_rust.Network.Link.Split.{SimLink, local, inward, out}

pub push_last : {V : Type 0} (x : V) (xs : List V) → SameItems (xs ++ x ∷ []) (x ∷ xs)
push_last x xs p = simp (count_if-append) (ground arith)

empty_parts :
    {V : Type 0} (q : List (VehicleQEntry V)) (w b : List V)
    → ((not (is_empty q) || not (is_empty w) || not (is_empty b)) ≡ true)
      ↔ (w ++ (vehicles q ++ b) ≢ [])
empty_parts [] [] [] = (λ h. cc, λ h. absurd (h refl))
empty_parts [] [] (x ∷ b) = (λ _. cons-ne-nil _ _, λ _. refl)
empty_parts [] (y ∷ w) b = (λ _. cons-ne-nil _ _, λ _. refl)
empty_parts (e ∷ q) [] b = (λ _. cons-ne-nil _ _, λ _. refl)
empty_parts (e ∷ q) (y ∷ w) b = (λ _. cons-ne-nil _ _, λ _. refl)

module _ {F V : Type 0} ⦃f : F64 F⦄ ⦃v : Vehicle F V⦄ where
  -- All vehicles of a link of any kind.
  unfoldable pub on_sim_link : SimLink F V → List V
  on_sim_link (local l) = on_link l
  on_sim_link (inward i) = on_link i.local_link
  on_sim_link (out o) = o.q

  pub push_local :
      (x : V) (position : LinkPosition) (now : Tick) (l : LocalLink F V)
      → SameItems (on_link (Link.push_veh x now position l)) (x ∷ on_link l)
  unfolding Link.push_veh
  push_local x q_start now l p = simp (count_if-append, map-append) (ground arith)
  push_local x waiting now l p = simp (count_if-append) (ground arith)

  push_local_id :
      (x : V) (position : LinkPosition) (now : Tick) (l : LocalLink F V)
      → (Link.push_veh x now position l).id ≡ l.id
  unfolding Link.push_veh
  push_local_id x q_start now l = refl
  push_local_id x waiting now l = refl

  -- Whether a link refuses a vehicle at a position: one that leads out of the partition does at the start of a route.
  abbrev pub refuses : SimLink F V → LinkPosition → Bool
  refuses (local l) position = false
  refuses (inward i) position = false
  refuses (out o) q_start = false
  refuses (out o) waiting = true

  -- A link that leads out of the partition refuses a vehicle at the start of a route, where the call panics. Every
  -- other call returns, and the link then has exactly that vehicle more.
  pub push_veh-SameItems :
      (x : V) (position : LinkPosition) (now : Tick) (k : SimLink F V)
      → ((refuses k position ≡ true) × (Split.push_veh x position now k ≡ none))
        ⊎ ((k' : SimLink F V) × (refuses k position ≡ false)
            × (Split.push_veh x position now k ≡ some k')
            × SameItems (on_sim_link k') (x ∷ on_sim_link k)
            × (Split.id k' ≡ Split.id k))
  unfolding Split.push_veh on_sim_link Split.id
  push_veh-SameItems x position now (local l) =
      inr (_, refl, refl, push_local x position now l, push_local_id x position now l)
  push_veh-SameItems x position now (inward i) = inr (
    _,
    refl,
    refl,
    push_local x position now i.local_link,
    push_local_id x position now i.local_link,
  )
  push_veh-SameItems x q_start now (out o) = inr (_, refl, refl, push_last x o.q, refl)
  push_veh-SameItems x waiting now (out o) = inl (refl, refl)

  pub pop_eq : (l : LocalLink F V) → Link.pop_veh l ≡ Link.pop l.buffer l
  unfolding Link.pop_veh
  pop_eq l = refl

  -- `drain` returns every vehicle of a link exactly once, and leaves none on it.
  pub drain-SameItems :
      (k : SimLink F V)
      → SameItems (Split.drain k).0 (on_sim_link k) × (on_sim_link (Split.drain k).1 ≡ [])
  unfolding Split.drain on_sim_link
  drain-SameItems (local l) = (λ p. simp (count_if-append) (omega arith), refl)
  drain-SameItems (inward i) = (λ p. simp (count_if-append) (omega arith), refl)
  drain-SameItems (out o) = (λ p. refl, refl)

  -- A local or incoming link is active exactly when a vehicle is on it.
  pub is_active-ne-nil : (l : LocalLink F V) → (Link.is_active l ≡ true) ↔ (on_link l ≢ [])
  unfolding Link.is_active
  is_active-ne-nil l = empty_parts l.q l.waiting_list l.buffer
