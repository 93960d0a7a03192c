-- ===== src/Scenario/RoadNetwork/Adding.antt =====
-- scenario/network.rs: `add_link` enters the link at its two ends.
use parallel_qsim_rust.Prelude.{
  ℕ, ◌+◌, ◌≡◌, ◌∙◌, refl, ap, subst, true, ◌==◌, Bool-cases, inl, inr, if◌then◌else◌, none, some,
  List, [], ◌∷◌, ◌++◌, count_if-append, arith,
}
use parallel_qsim_rust.Prelude.Maps.{Map, get, put, get-put}
use parallel_qsim_rust.Scenario.RoadNetwork.{Node, Link, Network, add_link, push_out, push_in}
use parallel_qsim_rust.Scenario.RoadNetwork.Changes.{is_some, IsChanged, change_total}
use parallel_qsim_rust.Scenario.RoadNetwork.Wiring.{count, ends_at, IsWired}

-- What one end's list counts when the new id is appended to it at the node `y` only.
count-pushed :
    (y x id k : ℕ) (xs ys : List ℕ)
    → ys ≡ (if y == x then xs ++ id ∷ [] else xs)
    → count k ys ≡ count k xs + (if y == x then if id == k then 1 else 0 else 0)
count-pushed y x id k xs ys e = elim (Bool-cases (y == x)) [
  | inl same ↦
      let longer : ys ≡ xs ++ id ∷ [] = e ∙ rw same refl in
      ap (count k) longer ∙ ground (arith, same, count_if-append (λ j. j == k) xs (id ∷ []))
  | inr other ↦ let kept : ys ≡ xs = e ∙ rw other refl in ap (count k) kept ∙ ground (arith, other)
]

module _ {F : Type 0} where
  -- Both lists of a node after the two changes of `add_link`.
  pushed_twice :
      (l : Link F) (old mid new : Map (Node F))
      → IsChanged l.from (push_out l.id) old mid
      → IsChanged l.to (push_in l.id) mid new
      → (x : ℕ) (v : Node F) → get x new ≡ some v
      → (u : Node F) × (get x old ≡ some u)
        × (v.out_links ≡ (if l.from == x then u.out_links ++ l.id ∷ [] else u.out_links))
        × (v.in_links ≡ (if l.to == x then u.in_links ++ l.id ∷ [] else u.in_links))
  pushed_twice l old mid new first second x v now =
      let (w, at_mid, to_v) = second.before x v now in
      let (u, at_old, to_w) = first.before x w at_mid in
      (u, at_old, ground (arith, to_v, to_w), ground (arith, to_v, to_w))

  -- What a count of ends is after the new link is stored.
  ends_after :
      (end : Link F → ℕ) (l : Link F) (links : Map (Link F)) (x k : ℕ)
      → get l.id links ≡ none
      → ends_at end x (get k links) + (if end l == x then if l.id == k then 1 else 0 else 0)
        ≡ ends_at end x (get k (put l.id l links))
  ends_after end l links x k fresh = elim (Bool-cases (l.id == k)) [
    | inl same ↦
        let at_k : l.id ≡ k = ground arith in
        let gone : get k links ≡ none = subst (λ j. get j links ≡ none) at_k fresh in
        rw (get-put l.id k l links) (rw same (rw gone (ground arith)))
    | inr other ↦ rw (get-put l.id k l links) (rw other (ground arith))
  ]

  module _ (n : Network F) (l : Link F) (h : IsWired n) (fresh : get l.id n.links ≡ none) where
    module _ (mid new : Map (Node F)) (first : IsChanged l.from (push_out l.id) n.nodes mid)
        (second : IsChanged l.to (push_in l.id) mid new) where
      stored_still : (y : ℕ) → is_some (get y n.nodes) ≡ true → is_some (get y new) ≡ true
      stored_still y held = second.same_keys y ∙ first.same_keys y ∙ held

      -- An end of a link that is stored afterwards.
      stored_end :
          (end : Link F → ℕ)
          → ((k : ℕ) (m : Link F) → get k n.links ≡ some m → is_some (get (end m) n.nodes) ≡ true)
          → is_some (get (end l) n.nodes) ≡ true
          → (k : ℕ) (m : Link F) → get k (put l.id l n.links) ≡ some m
          → is_some (get (end m) new) ≡ true
      stored_end end stored held k m e = elim (Bool-cases (l.id == k)) [
        | inl same ↦
            let is_l : l ≡ m = ground (arith, get-put l.id k l n.links) in
            subst (λ o. is_some (get (end o) new) ≡ true) is_l (stored_still (end l) held)
        | inr other ↦ stored_still (end m) (stored k m (ground (arith, get-put l.id k l n.links)))
      ]

      IsWired-put :
          is_some (get l.from n.nodes) ≡ true
          → is_some (get l.to n.nodes) ≡ true
          → IsWired (record n { nodes = new; links = put l.id l n.links })
      IsWired-put from_held to_held = record {
        keyed = λ k m e. ground (arith, get-put l.id k l n.links, h.keyed k m);
        from_stored = stored_end (λ m. m.from) h.from_stored from_held;
        to_stored = stored_end (λ m. m.to) h.to_stored to_held;
        outs = λ x v now k.
            let (u, at_old, outs_v, _) = pushed_twice l n.nodes mid new first second x v now in
            count-pushed l.from x l.id k u.out_links v.out_links outs_v
            ∙ ap (λ c. c + (if l.from == x then if l.id == k then 1 else 0 else 0))
                (h.outs x u at_old k)
            ∙ ends_after (λ m. m.from) l n.links x k fresh;
        ins = λ x v now k.
            let (u, at_old, _, ins_v) = pushed_twice l n.nodes mid new first second x v now in
            count-pushed l.to x l.id k u.in_links v.in_links ins_v
            ∙ ap (λ c. c + (if l.to == x then if l.id == k then 1 else 0 else 0))
                (h.ins x u at_old k)
            ∙ ends_after (λ m. m.to) l n.links x k fresh;
      }

    -- A link with a new id between stored nodes is added.
    pub add_link-IsWired :
        is_some (get l.from n.nodes) ≡ true
        → is_some (get l.to n.nodes) ≡ true
        → (n' : Network F) × (add_link n l ≡ some n')
          × IsWired n'
          × (n'.links ≡ put l.id l n.links)
          × ((y : ℕ) → is_some (get y n'.nodes) ≡ is_some (get y n.nodes))
    unfolding add_link
    add_link-IsWired from_held to_held =
        let (mid, did_out, first) = change_total l.from (push_out l.id) n.nodes from_held in
        let (new, did_in, second) =
          change_total l.to (push_in l.id) mid (first.same_keys l.to ∙ to_held) in
        (
          record n { nodes = new; links = put l.id l n.links },
          rw (did_out, add_link) (rw (did_in, add_link) (rw (fresh, add_link) refl)),
          IsWired-put mid new first second from_held to_held,
          refl,
          λ y. second.same_keys y ∙ first.same_keys y,
        )
