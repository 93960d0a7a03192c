-- ===== src/Network/SimNetwork/Gathering.antt =====
-- rust_qsim/src/simulation/network/sim_network.rs: what holds while `move_links` goes over
-- the active links.
use mathlib.Core.Option.{some-injective}
use parallel_qsim_rust.Prelude.{
  ℕ, ◌+◌, ◌≡◌, ◌≢◌, refl, ap, ◌∙◌, subst, Bool, true, ◌==◌, some, List, [], ◌∷◌, ◌++◌, length,
  count_if, count_if-append, arith, inl, inr, Option-cases, Bool-cases,
}
use parallel_qsim_rust.Prelude.Maps.{Map, get, put, get-put, contains, contains-append}
use parallel_qsim_rust.Time.{Tick}
use parallel_qsim_rust.Float.{F64, Vehicle}
use parallel_qsim_rust.Network.Link.Split
use parallel_qsim_rust.Network.Link.Split.{SimLink}
use parallel_qsim_rust.Network.Link.Laws.{on_sim_link}
use parallel_qsim_rust.Network.SimNetwork.{Gathered, Moved, move_link, move_all, gather}
use parallel_qsim_rust.Network.SimNetwork.Vehicles.{on_links, on_links-put, count_if-true}
use parallel_qsim_rust.Network.SimNetwork.Conserve.{move_link_keeps}

length_zero : {A : Type 0} (xs : List A) → length xs ≡ 0 → xs ≡ []
length_zero [] _ = refl
length_zero (x ∷ xs) h = absurd (omega arith)

contains_one : (k j : ℕ) → contains k (j ∷ []) ≡ true → j ≡ k
unfolding contains
contains_one k j h = ground arith

module _ {F V : Type 0} ⦃f : F64 F⦄ ⦃v : Vehicle F V⦄ where
  -- Every link is stored under its identity.
  abbrev pub IsKeyed : Map (SimLink F V) → Type 0
  IsKeyed m = (k : ℕ) (l : SimLink F V) → get k m ≡ some l → Split.id l ≡ k

  -- No vehicle is on the link `k`.
  abbrev pub IsEmptyAt : ℕ → Map (SimLink F V) → Type 0
  IsEmptyAt k m = (l : SimLink F V) → get k m ≡ some l → on_sim_link l ≡ []

  pub put-IsKeyed :
      (k : ℕ) (l : SimLink F V) (m : Map (SimLink F V))
      → Split.id l ≡ k
      → IsKeyed m
      → IsKeyed (put k l m)
  put-IsKeyed k l m h keyed j x e = ground (arith, get-put k j l m, keyed j x)

  pub put-IsEmptyAt :
      (k j : ℕ) (l : SimLink F V) (m : Map (SimLink F V))
      → (k ≡ j → on_sim_link l ≡ [])
      → (k ≢ j → IsEmptyAt j m)
      → IsEmptyAt j (put k l m)
  put-IsEmptyAt k j l m h rest x e = elim (Bool-cases (k == j)) [
    | inl same ↦ ground (arith, get-put k j l m, same, h)
    | inr other ↦ rest (ground arith) x (ground (arith, get-put k j l m, other))
  ]

  stays_empty :
      (now : Tick) (nodes : List ℕ) (k : SimLink F V) (m : Moved F V)
      → move_link now nodes k ≡ some m
      → on_sim_link k ≡ []
      → on_sim_link m.link ≡ []
  stays_empty now nodes k m e empty =
      let same = (move_link_keeps now nodes k m e).0 (λ _. true) in
      length_zero (on_sim_link m.link) (
        omega (
          arith,
          ap length empty,
          count_if-append (λ _. true) m.ends (m.exits ++ on_sim_link m.link),
          count_if-append (λ _. true) m.exits (on_sim_link m.link),
          count_if-true (on_sim_link m.link),
          count_if-true (on_sim_link k),
        ))

  -- What holds of the links while `move_links` goes over them.
  pub record IsGathered (g : Gathered F V) : Type 0 where
    pub keyed : IsKeyed g.links
    pub emptied : (k : ℕ) → contains k g.deactivate ≡ true → IsEmptyAt k g.links

  -- The vehicles that pass a test: those gathered, and those still on a link.
  abbrev pub total : (V → Bool) → Gathered F V → ℕ
  total p g =
      count_if p g.vehicles_end_leg
      + count_if p g.vehicles_exit_partition
      + count_if p (on_links g.links)

  module _ (now : Tick) (id : ℕ) (g : Gathered F V) (link : SimLink F V) (m : Moved F V)
      (found : get id g.links ≡ some link)
      (moved : move_link now g.active_nodes link ≡ some m) where
    gather-total : (p : V → Bool) → total p (gather id m g) ≡ total p g
    gather-total p = omega (
      arith,
      (move_link_keeps now g.active_nodes link m moved).0 p,
      on_links-put p id link m.link g.links found,
      count_if-append p m.ends (m.exits ++ on_sim_link m.link),
      count_if-append p m.exits (on_sim_link m.link),
      count_if-append p g.vehicles_end_leg m.ends,
      count_if-append p g.vehicles_exit_partition m.exits,
    )

    gather-IsEmptyAt : (k : ℕ) → IsEmptyAt k g.links → IsEmptyAt k (gather id m g).links
    gather-IsEmptyAt k empty =
        put-IsEmptyAt id k m.link g.links
          (λ same. stays_empty now g.active_nodes link m moved (empty link (rw (← same) found)))
          (λ _. empty)

    gather-IsGathered : IsGathered g → IsGathered (gather id m g)
    gather-IsGathered h =
        let (_, same_id, idle) = move_link_keeps now g.active_nodes link m moved in
        let key : Split.id m.link ≡ id = same_id ∙ h.keyed id link found in
        record {
          keyed = put-IsKeyed id m.link g.links key h.keyed;
          emptied = λ k listed. elim (Bool-cases m.is_active) [
            | inl busy ↦ gather-IsEmptyAt k (h.emptied k (ground (arith, busy)))
            | inr still ↦ elim (Bool-cases (contains k g.deactivate)) [
              | inl before ↦ gather-IsEmptyAt k (h.emptied k before)
              | inr new ↦
                  let this : id ≡ k = ground (
                    arith,
                    still,
                    new,
                    key,
                    contains-append k g.deactivate (Split.id m.link ∷ []),
                    contains_one k (Split.id m.link),
                  ) in
                  put-IsEmptyAt id k m.link g.links (λ _. idle still) (λ other. absurd (other this))
            ]
          ];
        }

  -- What every moved link keeps holds of the whole loop.
  pub move_all_rule :
      (P : Gathered F V → Type 0) (now : Tick)
      → ((id : ℕ) (g : Gathered F V) (link : SimLink F V) (m : Moved F V)
          → get id g.links ≡ some link
          → move_link now g.active_nodes link ≡ some m
          → P g
          → P (gather id m g))
      → (ids : List ℕ) (g g' : Gathered F V) → move_all now ids g ≡ some g'
      → P g
      → P g'
  unfolding move_all
  move_all_rule P now step [] g g' e h = subst P (some-injective _ _ e) h
  move_all_rule P now step (id ∷ ids) g g' e h = elim (Option-cases (get id g.links)) [
    | inl none_left ↦ ground (arith, none_left)
    | inr (link, found) ↦ elim (Option-cases (move_link now g.active_nodes link)) [
      | inl none_left ↦ ground (arith, found, none_left)
      | inr (m, moved) ↦
          let rest : move_all now ids (gather id m g) ≡ some g' = ground (arith, found, moved) in
          move_all_rule P now step ids (gather id m g) g' rest (step id g link m found moved h)
    ]
  ]

  module _ (now : Tick) (ids : List ℕ) (g g' : Gathered F V)
      (e : move_all now ids g ≡ some g') where
    pub move_all-total : (p : V → Bool) → total p g' ≡ total p g
    move_all-total p =
        move_all_rule (λ h. total p h ≡ total p g) now
          (λ id h link m found moved same. gather-total now id h link m found moved p ∙ same) ids g
          g' e refl

    pub move_all-IsEmptyAt : (k : ℕ) → IsEmptyAt k g.links → IsEmptyAt k g'.links
    move_all-IsEmptyAt k =
        move_all_rule (λ h. IsEmptyAt k h.links) now
          (λ id h link m found moved. gather-IsEmptyAt now id h link m found moved k) ids g g' e

    pub move_all-IsGathered : IsGathered g → IsGathered g'
    move_all-IsGathered = move_all_rule IsGathered now (gather-IsGathered now) ids g g' e
