-- ===== src/Scenario/RoadNetwork/Wiring.antt =====
-- scenario/network.rs: nodes and links that name each other, and that adding and removing keeps this.
use parallel_qsim_rust.Prelude.{
  ℕ, ◌≡◌, ◌∙◌, refl, sym, ap, subst, true, ◌==◌, Bool-cases, Option-cases, inl, inr, if◌then◌else◌,
  Option, none, some, List, [], count_if, arith,
}
use parallel_qsim_rust.Prelude.Maps.{get, put, get-put}
use parallel_qsim_rust.Scenario.RoadNetwork.Changes.{is_some}
use parallel_qsim_rust.Scenario.RoadNetwork.{Node, Link, Network, add_node}

abbrev pub count : ℕ → List ℕ → ℕ
count k = count_if (λ j. j == k)

module _ {F : Type 0} where
  abbrev pub ends_at : (Link F → ℕ) → ℕ → Option (Link F) → ℕ
  ends_at end x none = 0
  ends_at end x (some l) = if end l == x then 1 else 0

  -- Every link is stored under its id with both its ends, and every node lists exactly the links that start at it and
  -- those that end at it, each once.
  pub record IsWired (n : Network F) : Type 0 where
    pub keyed : (k : ℕ) (l : Link F) → get k n.links ≡ some l → l.id ≡ k
    pub from_stored :
        (k : ℕ) (l : Link F) → get k n.links ≡ some l → is_some (get l.from n.nodes) ≡ true
    pub to_stored :
        (k : ℕ) (l : Link F) → get k n.links ≡ some l → is_some (get l.to n.nodes) ≡ true
    pub outs :
        (x : ℕ) (v : Node F)
        → get x n.nodes ≡ some v
        → (k : ℕ) → count k v.out_links ≡ ends_at (λ l. l.from) x (get k n.links)
    pub ins :
        (x : ℕ) (v : Node F)
        → get x n.nodes ≡ some v
        → (k : ℕ) → count k v.in_links ≡ ends_at (λ l. l.to) x (get k n.links)

  pub absent_end :
      (end : Link F → ℕ) (n : Network F) (x k : ℕ)
      → ((l : Link F) → get k n.links ≡ some l → is_some (get (end l) n.nodes) ≡ true)
      → get x n.nodes ≡ none
      → ends_at end x (get k n.links) ≡ 0
  absent_end end n x k stored gone = elim (Option-cases (get k n.links)) [
    | inl nothing ↦ rw nothing refl
    | inr (l, e) ↦ elim (Bool-cases (end l == x)) [
      | inl same ↦
          let at_x : end l ≡ x = ground arith in
          let held : is_some (get x n.nodes) ≡ true =
            subst (λ y. is_some (get y n.nodes) ≡ true) at_x (stored l e) in
          absurd (ground (arith, held, gone))
      | inr other ↦ rw e (rw other refl)
    ]
  ]

  -- A node without links and with a new id is added.
  pub add_node-IsWired :
      (n : Network F) (v : Node F)
      → IsWired n
      → get v.id n.nodes ≡ none
      → v.out_links ≡ []
      → v.in_links ≡ []
      → (n' : Network F) × (add_node n v ≡ some n') × IsWired n' × (get v.id n'.nodes ≡ some v)
  unfolding add_node
  add_node-IsWired n v h fresh no_out no_in = (
    record n { nodes = put v.id v n.nodes },
    rw (fresh, add_node) refl,
    record {
      keyed = h.keyed;
      from_stored = λ k l e. ground (arith, get-put v.id l.from v n.nodes, h.from_stored k l e);
      to_stored = λ k l e. ground (arith, get-put v.id l.to v n.nodes, h.to_stored k l e);
      outs = λ x u e k. elim (Bool-cases (v.id == x)) [
        | inl same ↦
            let at_x : v.id ≡ x = ground arith in
            let is_v : v ≡ u = ground (arith, get-put v.id x v n.nodes) in
            let zero_links : count k u.out_links ≡ 0 =
              ap (λ (w : Node F). count k w.out_links) (sym is_v) ∙ ap (count k) no_out in
            zero_links
            ∙ sym (
                subst (λ y. ends_at (λ l. l.from) y (get k n.links) ≡ 0) at_x
                  (absent_end (λ l. l.from) n v.id k (h.from_stored k) fresh))
        | inr other ↦ h.outs x u (ground (arith, get-put v.id x v n.nodes)) k
      ];
      ins = λ x u e k. elim (Bool-cases (v.id == x)) [
        | inl same ↦
            let at_x : v.id ≡ x = ground arith in
            let is_v : v ≡ u = ground (arith, get-put v.id x v n.nodes) in
            let zero_links : count k u.in_links ≡ 0 =
              ap (λ (w : Node F). count k w.in_links) (sym is_v) ∙ ap (count k) no_in in
            zero_links
            ∙ sym (
                subst (λ y. ends_at (λ l. l.to) y (get k n.links) ≡ 0) at_x
                  (absent_end (λ l. l.to) n v.id k (h.to_stored k) fresh))
        | inr other ↦ h.ins x u (ground (arith, get-put v.id x v n.nodes)) k
      ];
    },
    ground (arith, get-put v.id v.id v n.nodes),
  )
