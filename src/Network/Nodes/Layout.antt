-- ===== src/Network/Nodes/Layout.antt =====
-- rust_qsim/src/simulation/network/sim_network.rs: what `move_nodes` needs of the links of a partition, and
-- that it stays true when a link is replaced by the same link with other vehicles.
use parallel_qsim_rust.Prelude.{
  ℕ, ◌+◌, ◌≡◌, ◌≤◌, ◌∙◌, subst, Bool, true, ◌||◌, ◌==◌, some, [], ◌∷◌, ◌++◌, length, All, count_if,
  length-append, arith, inl, inr, Bool-cases,
}
use parallel_qsim_rust.Prelude.Maps.{Map, get, put, get-put}
use parallel_qsim_rust.Time.{SimTime}
use parallel_qsim_rust.Float.{F64, Vehicle}
use parallel_qsim_rust.Network.LinkState.{LocalLink}
use parallel_qsim_rust.Network.Link.Moves.{vehicles}
use parallel_qsim_rust.Network.Link.Step.{on_link}
use parallel_qsim_rust.Network.Link.Split
use parallel_qsim_rust.Network.Link.Split.{SimLink, local, inward, out}
use parallel_qsim_rust.Network.Link.Laws.{on_sim_link}
use parallel_qsim_rust.Network.SimNetwork.Vehicles.{on_links}
use parallel_qsim_rust.Network.Nodes.Shapes.{buffer, is_target, IsSameLink}

-- The links from which vehicles may be moved, with their flow capacities, and those onto which they may be.
pub record Layout (F : Type 0) : Type 0 where
  pub source : ℕ → Bool
  pub cap : ℕ → F
  pub target : ℕ → Bool

module _ {F V : Type 0} ⦃f : F64 F⦄ ⦃v : Vehicle F V⦄ (y : Layout F) where
  -- The route of a vehicle on the link `k` goes on to a link onto which it may be moved; leaving the link takes it
  -- there and does not change its identity.
  pub record IsRouted (k : ℕ) (x : V) : Type 0 where
    pub next : ℕ
    pub here : v.curr_link_id x ≡ some k
    pub peek : v.peek_next_route_element x ≡ some next
    pub there : (time : SimTime) → v.curr_link_id (v.left_link x time) ≡ some next
    pub same_id : (time : SimTime) → v.id (v.left_link x time) ≡ v.id x
    pub target : y.target next ≡ true

  -- The link `l` stands at `k`.
  pub record IsPlaced (k : ℕ) (l : SimLink F V) : Type 0 where
    pub id : Split.id l ≡ k
    pub flow : y.source k ≡ true → Split.flow_cap l ≡ some (y.cap k)
    pub target : y.target k ≡ true → is_target l ≡ true
    pub routed : All (IsRouted k) (buffer l)

  pub record IsLaidOut (m : Map (SimLink F V)) : Type 0 where
    pub stored :
        (k : ℕ) → (y.source k || y.target k) ≡ true → (l : SimLink F V) × (get k m ≡ some l)
    pub placed : (k : ℕ) (l : SimLink F V) → get k m ≡ some l → IsPlaced k l

  -- It is enough to look at every entry of the map.
  pub IsPlaced-entries :
      (m : Map (SimLink F V)) (k : ℕ) (l : SimLink F V)
      → All (λ p. IsPlaced p.0 p.1) m
      → get k m ≡ some l
      → IsPlaced k l
  unfolding get
  IsPlaced-entries [] k l _ e = cc
  IsPlaced-entries ((j, x) ∷ m) k l (h, hs) e = elim (Bool-cases (j == k)) [
    | inl same ↦
        let at : j ≡ k = ground (arith, same) in
        let this : x ≡ l = ground (arith, same, e) in
        subst (λ i. IsPlaced i l) at (subst (IsPlaced j) this h)
    | inr other ↦ IsPlaced-entries m k l hs (ground (arith, other, e))
  ]

  pub IsSameLink-IsPlaced :
      (k : ℕ) (l l' : SimLink F V)
      → IsSameLink l l'
      → All (IsRouted k) (buffer l')
      → IsPlaced k l
      → IsPlaced k l'
  IsSameLink-IsPlaced k l l' same routed h = record {
    id = same.id ∙ h.id;
    flow = λ s. same.flow ∙ h.flow s;
    target = λ t. same.target ∙ h.target t;
    routed = routed;
  }

  pub put-IsLaidOut :
      (k : ℕ) (l' : SimLink F V) (m : Map (SimLink F V))
      → IsPlaced k l'
      → IsLaidOut m
      → IsLaidOut (put k l' m)
  put-IsLaidOut k l' m placed h = record {
    stored = λ j used. elim (Bool-cases (k == j)) [
      | inl same ↦ (l', ground (arith, get-put k j l' m, same))
      | inr other ↦ let (l, e) = h.stored j used in (l, ground (arith, get-put k j l' m, other, e))
    ];
    placed = λ j l e. elim (Bool-cases (k == j)) [
      | inl same ↦
          let at : k ≡ j = ground (arith, same) in
          let this : l' ≡ l = ground (arith, get-put k j l' m, same, e) in
          subst (λ i. IsPlaced i l) at (subst (IsPlaced k) this placed)
      | inr other ↦ h.placed j l (ground (arith, get-put k j l' m, other, e))
    ];
  }

module _ {F V : Type 0} ⦃f : F64 F⦄ ⦃v : Vehicle F V⦄ where
  -- How many vehicles may be offered.
  unfoldable pub buffered : Map (SimLink F V) → ℕ
  buffered [] = 0
  buffered ((k, l) ∷ m) = length (buffer l) + buffered m

  pub buffered-put :
      (k : ℕ) (l l' : SimLink F V) (m : Map (SimLink F V))
      → get k m ≡ some l
      → buffered (put k l' m) + length (buffer l) ≡ buffered m + length (buffer l')
  unfolding get put buffered
  buffered-put k l l' [] e = cc
  buffered-put k l l' ((j, x) ∷ m) e = ground (arith, buffered-put k l l' m)

  buffer_le_local : (l : LocalLink F V) → length l.buffer ≤ length (on_link l)
  buffer_le_local l = omega (
    arith,
    length-append l.waiting_list (vehicles l.q ++ l.buffer),
    length-append (vehicles l.q) l.buffer,
  )

  buffer_le : (l : SimLink F V) → length (buffer l) ≤ length (on_sim_link l)
  unfolding buffer on_sim_link
  buffer_le (local l) = buffer_le_local l
  buffer_le (inward i) = buffer_le_local i.local_link
  buffer_le (out o) = omega arith

  pub buffered_le : (m : Map (SimLink F V)) → buffered m ≤ length (on_links m)
  unfolding buffered on_links
  buffered_le [] = omega arith
  buffered_le ((k, l) ∷ m) =
      omega (arith, buffer_le l, buffered_le m, length-append (on_sim_link l) (on_links m))

  -- How many vehicles on the links have an identity that passes a test.
  abbrev pub id_count : (ℕ → Bool) → Map (SimLink F V) → ℕ
  id_count p m = count_if (λ (x : V). p (v.id x)) (on_links m)
