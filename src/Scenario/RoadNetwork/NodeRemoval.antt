-- ===== src/Scenario/RoadNetwork/NodeRemoval.antt =====
-- scenario/network.rs: `remove_node` takes the links of the node out first.
use parallel_qsim_rust.Prelude.{
  ℕ, ◌+◌, ◌≡◌, ◌∙◌, ◌≤◌, refl, sym, ap, subst, Bool, true, false, ◌==◌, ◌||◌, Bool-cases,
  Option-cases, inl, inr, if◌then◌else◌, Option, none, some, List, [], ◌∷◌, ◌++◌, count_if-append,
  arith,
}
use parallel_qsim_rust.Prelude.Maps.{Map, get, erase, get-erase}
use parallel_qsim_rust.Scenario.RoadNetwork.{Node, Link, Network, remove_links, remove_node}
use parallel_qsim_rust.Scenario.RoadNetwork.Changes.{is_some, stored_total}
use parallel_qsim_rust.Scenario.RoadNetwork.Wiring.{count, ends_at, IsWired}
use parallel_qsim_rust.Scenario.RoadNetwork.Removal.{remove_link-IsWired}

-- A `HashSet` holds what was put in, each item once, in an order of its own.
abbrev pub IsHashSet : (List ℕ → List ℕ) → Type 0
IsHashSet collect_set =
    (k : ℕ) (xs : List ℕ) → count k (collect_set xs) ≡ (if count k xs == 0 then 0 else 1)

module _ {F : Type 0} where
  any_link :
      (id : ℕ) (m : Map (Link F)) → is_some (get id m) ≡ true → (l : Link F) × (get id m ≡ some l)
  any_link id m held = elim (Option-cases (get id m)) [
    | inl nothing ↦ absurd (ground (arith, held, nothing))
    | inr (l, e) ↦ (l, e)
  ]

  record IsWithout (ids : List ℕ) (old new : Network F) : Type 0 where
    wired : IsWired new
    same_nodes : (y : ℕ) → is_some (get y new.nodes) ≡ is_some (get y old.nodes)
    kept : (k : ℕ) → count k ids ≡ 0 → get k new.links ≡ get k old.links
    gone : (k : ℕ) → count k ids ≡ 1 → get k new.links ≡ none

  -- One link is removed, then the others.
  IsWithout-cons :
      (id : ℕ) (ids : List ℕ) (old mid new : Network F)
      → mid.links ≡ erase id old.links
      → ((y : ℕ) → is_some (get y mid.nodes) ≡ is_some (get y old.nodes))
      → count id ids ≡ 0
      → IsWithout ids mid new
      → IsWithout (id ∷ ids) old new
  IsWithout-cons id ids old mid new erased same last after = record {
    wired = after.wired;
    same_nodes = λ y. after.same_nodes y ∙ same y;
    kept = λ k e.
        after.kept k (ground (arith, e))
        ∙ ap (get k) erased
        ∙ ground (arith, get-erase id k old.links, e);
    gone = λ k e. elim (Bool-cases (id == k)) [
      | inl same_id ↦
          let at_k : id ≡ k = ground arith in
          after.kept k (subst (λ j. count j ids ≡ 0) at_k last)
          ∙ ap (get k) erased
          ∙ ground (arith, get-erase id k old.links)
      | inr other ↦ after.gone k (ground (arith, e))
    ];
  }

  remove_links_total :
      (ids : List ℕ) (n : Network F)
      → IsWired n
      → ((k : ℕ) → count k ids ≤ 1)
      → ((k : ℕ) → count k ids ≡ 1 → is_some (get k n.links) ≡ true)
      → (n' : Network F) × (remove_links n ids ≡ some n') × IsWithout ids n n'
  unfolding remove_links
  remove_links_total [] n h once stored = (
    n,
    refl,
    record {
      wired = h;
      same_nodes = λ y. refl;
      kept = λ k e. refl;
      gone = λ k e. absurd (ground (arith, e));
    },
  )
  remove_links_total (id ∷ ids) n h once stored =
      let last : count id ids ≡ 0 = ground (arith, once id) in
      let (l, held) = any_link id n.links (stored id (ground (arith, last))) in
      let (mid, did, wired, erased, same) = remove_link-IsWired n l id h held in
      let still : (k : ℕ) → count k ids ≡ 1 → is_some (get k mid.links) ≡ true = λ k e.
        ap (λ m. is_some (get k m)) erased
        ∙ ground (arith, get-erase id k n.links, stored k, e, once k, last) in
      let (n', rest, after) =
        remove_links_total ids mid wired (λ k. ground (arith, once k)) still in
      (n', rw (did, remove_links) rest, IsWithout-cons id ids n mid n' erased same last after)

  -- Whether a link that is stored starts or ends at the node.
  abbrev pub touches : ℕ → Option (Link F) → Bool
  touches x none = false
  touches x (some l) = l.from == x || l.to == x

  -- The links without the node's, and the nodes without it.
  pub record IsWithoutNode (id : ℕ) (old new : Network F) : Type 0 where
    pub wired : IsWired new
    pub nodes_left :
        (y : ℕ) → is_some (get y new.nodes) ≡ (if id == y then false else is_some (get y old.nodes))
    pub links_left :
        (k : ℕ) → get k new.links ≡ (if touches id (get k old.links) then none else get k old.links)

  count_touches :
      (id c : ℕ) (stored : Option (Link F))
      → c ≡ ends_at (λ l. l.to) id stored + ends_at (λ l. l.from) id stored
      → ◌≡◌ {A = ℕ} (if c == 0 then 0 else 1) (if touches id stored then 1 else 0)
  count_touches id c none e = ground (arith, e)
  count_touches id c (some l) e = ground (arith, e)

  module _ (collect_set : List ℕ → List ℕ) (hashed : IsHashSet collect_set) (n : Network F) (id : ℕ)
      (v : Node F) (h : IsWired n) (held : get id n.nodes ≡ some v) where
    abbrev its_links : List ℕ
    its_links = collect_set (v.in_links ++ v.out_links)

    -- The set holds exactly the links that start or end at the node.
    count-its_links : (k : ℕ) → count k its_links ≡ (if touches id (get k n.links) then 1 else 0)
    count-its_links k =
        hashed k (v.in_links ++ v.out_links)
        ∙ count_touches id (count k (v.in_links ++ v.out_links)) (get k n.links) (
            count_if-append (λ j. j == k) v.in_links v.out_links
            ∙ ap (λ c. c + count k v.out_links) (h.ins id v held k)
            ∙ ap (λ c. ends_at (λ l. l.to) id (get k n.links) + c) (h.outs id v held k))

    -- A link that is left does not touch the node.
    untouched :
        (n' : Network F) (k : ℕ) (l : Link F)
        → IsWithout its_links n n'
        → get k n'.links ≡ some l
        → (touches id (some l) ≡ false) × (get k n.links ≡ some l)
    untouched n' k l after e = elim (Bool-cases (touches id (get k n.links))) [
      | inl does ↦ absurd (ground (arith, after.gone k (count-its_links k ∙ rw does refl), e))
      | inr not_so ↦
          let same : get k n.links ≡ some l =
            sym (after.kept k (count-its_links k ∙ rw not_so refl)) ∙ e in
          (ap (touches id) (sym same) ∙ not_so, same)
    ]

    IsWithoutNode-erase :
        (n' : Network F)
        → IsWithout its_links n n'
        → IsWithoutNode id n (record n' { nodes = erase id n'.nodes })
    IsWithoutNode-erase n' after = record {
      wired = record {
        keyed = after.wired.keyed;
        from_stored = λ k l e. ground (
          arith,
          get-erase id l.from n'.nodes,
          (untouched n' k l after e).0,
          after.wired.from_stored k l e,
        );
        to_stored = λ k l e. ground (
          arith,
          get-erase id l.to n'.nodes,
          (untouched n' k l after e).0,
          after.wired.to_stored k l e,
        );
        outs = λ x u e. after.wired.outs x u (ground (arith, get-erase id x n'.nodes));
        ins = λ x u e. after.wired.ins x u (ground (arith, get-erase id x n'.nodes));
      };
      nodes_left = λ y. ground (arith, get-erase id y n'.nodes, after.same_nodes y);
      links_left = λ k. elim (Bool-cases (touches id (get k n.links))) [
        | inl does ↦ after.gone k (count-its_links k ∙ rw does refl) ∙ rw does refl
        | inr not_so ↦ after.kept k (count-its_links k ∙ rw not_so refl) ∙ rw not_so refl
      ];
    }

    -- A stored node of a network that is wired is removed together with the links that start or end there, and with
    -- nothing else.
    pub remove_node-IsWithoutNode :
        (n' : Network F) × (remove_node collect_set n id ≡ some n') × IsWithoutNode id n n'
    unfolding remove_node
    remove_node-IsWithoutNode =
        let (n', did, after) =
          remove_links_total its_links n h
            (λ k. ground (arith, hashed k (v.in_links ++ v.out_links)))
            (λ k e. ground (arith, count-its_links k, e)) in
        let (u, at_end) = stored_total id n'.nodes (after.same_nodes id ∙ rw held refl) in
        (
          record n' { nodes = erase id n'.nodes },
          rw (held, remove_node) (rw (did, remove_node) (rw (at_end, remove_node) refl)),
          IsWithoutNode-erase n' after,
        )
