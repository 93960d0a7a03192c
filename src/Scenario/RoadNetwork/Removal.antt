-- ===== src/Scenario/RoadNetwork/Removal.antt =====
-- scenario/network.rs: `remove_link` takes the link out at its two ends.
use parallel_qsim_rust.Prelude.{
  ℕ, ◌+◌, ◌≡◌, ◌∙◌, refl, ap, subst, true, ◌==◌, Bool-cases, inl, inr, if◌then◌else◌, some, List,
  [], ◌∷◌, length, arith,
}
use parallel_qsim_rust.Prelude.Maps.{Map, get, put, erase, get-erase}
use parallel_qsim_rust.Scenario.RoadNetwork.{
  Node, Link, Network, retain_other, drop_one, remove_link,
}
use parallel_qsim_rust.Scenario.RoadNetwork.Changes.{
  is_some, IsChanged, put-IsChanged, stored_total,
}
use parallel_qsim_rust.Scenario.RoadNetwork.Wiring.{count, ends_at, IsWired}

count-retain_other :
    (id k : ℕ) (xs : List ℕ) → count k (retain_other id xs) ≡ (if id == k then 0 else count k xs)
count-retain_other id k [] = ground arith
count-retain_other id k (x ∷ xs) = ground (arith, count-retain_other id k xs)

length-retain_other : (id : ℕ) (xs : List ℕ) → length xs ≡ length (retain_other id xs) + count id xs
length-retain_other id [] = omega arith
length-retain_other id (x ∷ xs) = ground (arith, length-retain_other id xs)

drop_one_total :
    (id : ℕ) (xs : List ℕ) → count id xs ≡ 1 → drop_one id xs ≡ some (retain_other id xs)
unfolding drop_one
drop_one_total id xs once = ground (arith, length-retain_other id xs, once)

-- What one end's list counts when the id is taken out at the node `y` only.
count-taken :
    (y x id k : ℕ) (xs ys : List ℕ)
    → ys ≡ (if y == x then retain_other id xs else xs)
    → count k ys ≡ (if y == x then if id == k then 0 else count k xs else count k xs)
count-taken y x id k xs ys e = elim (Bool-cases (y == x)) [
  | inl same ↦
      let shorter : ys ≡ retain_other id xs = e ∙ rw same refl in
      ap (count k) shorter ∙ count-retain_other id k xs ∙ rw same refl
  | inr other ↦ let kept : ys ≡ xs = e ∙ rw other refl in ap (count k) kept ∙ rw other refl
]

module _ {F : Type 0} where
  abbrev take_out : ℕ → Node F → Node F
  take_out id v = record v { out_links = retain_other id v.out_links }

  abbrev take_in : ℕ → Node F → Node F
  take_in id v = record v { in_links = retain_other id v.in_links }

  taken_twice :
      (l : Link F) (id : ℕ) (old mid new : Map (Node F))
      → IsChanged l.from (take_out id) old mid
      → IsChanged l.to (take_in id) mid new
      → (x : ℕ) (v : Node F) → get x new ≡ some v
      → (u : Node F) × (get x old ≡ some u)
        × (v.out_links ≡ (if l.from == x then retain_other id u.out_links else u.out_links))
        × (v.in_links ≡ (if l.to == x then retain_other id u.in_links else u.in_links))
  taken_twice l id old mid new first second x v now =
      let (w, at_mid, to_v) = second.before x v now in
      let (u, at_old, to_w) = first.before x w at_mid in
      (u, at_old, ground (arith, to_v, to_w), ground (arith, to_v, to_w))

  -- What a count of ends is after the link is erased.
  ends_without :
      (end : Link F → ℕ) (l : Link F) (id : ℕ) (links : Map (Link F)) (x k c : ℕ)
      → get id links ≡ some l
      → c ≡ ends_at end x (get k links)
      → (if end l == x then if id == k then 0 else c else c)
        ≡ ends_at end x (get k (erase id links))
  ends_without end l id links x k c held e = elim (Bool-cases (id == k)) [
    | inl same ↦
        let at_k : id ≡ k = ground arith in
        let stored : get k links ≡ some l = subst (λ j. get j links ≡ some l) at_k held in
        let counted : c ≡ (if end l == x then 1 else 0) = e ∙ rw stored refl in
        rw (get-erase id k links) (rw same (ground (arith, counted)))
    | inr other ↦ rw (get-erase id k links) (rw other (ground (arith, e)))
  ]

  module _ (n : Network F) (l : Link F) (id : ℕ) (h : IsWired n)
      (held : get id n.links ≡ some l) where
    module _ (mid new : Map (Node F)) (first : IsChanged l.from (take_out id) n.nodes mid)
        (second : IsChanged l.to (take_in id) mid new) where
      held_still : (y : ℕ) → is_some (get y n.nodes) ≡ true → is_some (get y new) ≡ true
      held_still y has = second.same_keys y ∙ first.same_keys y ∙ has

      was_stored : (k : ℕ) (m : Link F) → get k (erase id n.links) ≡ some m → get k n.links ≡ some m
      was_stored k m e = ground (arith, get-erase id k n.links)

      IsWired-erase : IsWired (record n { nodes = new; links = erase id n.links })
      IsWired-erase = record {
        keyed = λ k m e. h.keyed k m (was_stored k m e);
        from_stored = λ k m e. held_still m.from (h.from_stored k m (was_stored k m e));
        to_stored = λ k m e. held_still m.to (h.to_stored k m (was_stored k m e));
        outs = λ x v now k.
            let (u, at_old, outs_v, _) = taken_twice l id n.nodes mid new first second x v now in
            count-taken l.from x id k u.out_links v.out_links outs_v
            ∙ ends_without (λ m. m.from) l id n.links x k (count k u.out_links) held
                (h.outs x u at_old k);
        ins = λ x v now k.
            let (u, at_old, _, ins_v) = taken_twice l id n.nodes mid new first second x v now in
            count-taken l.to x id k u.in_links v.in_links ins_v
            ∙ ends_without (λ m. m.to) l id n.links x k (count k u.in_links) held
                (h.ins x u at_old k);
      }

    -- The entry of the link at one of its ends.
    one_entry :
        (end : Link F → ℕ) (xs : List ℕ)
        → count id xs ≡ ends_at end (end l) (get id n.links)
        → count id xs ≡ 1
    one_entry end xs e = e ∙ rw held (ground arith)

    -- A stored link is removed: neither assertion of the two lists fails.
    pub remove_link-IsWired :
        (n' : Network F) × (remove_link n id ≡ some n')
        × IsWired n'
        × (n'.links ≡ erase id n.links)
        × ((y : ℕ) → is_some (get y n'.nodes) ≡ is_some (get y n.nodes))
    unfolding remove_link
    remove_link-IsWired =
        let (a, at_from) = stored_total l.from n.nodes (h.from_stored id l held) in
        let first : IsChanged l.from (take_out id) n.nodes (put l.from (take_out id a) n.nodes) =
          put-IsChanged l.from (take_out id) n.nodes a at_from in
        let mid : Map (Node F) = put l.from (take_out id a) n.nodes in
        let (b, at_to) = stored_total l.to mid (first.same_keys l.to ∙ h.to_stored id l held) in
        let second : IsChanged l.to (take_in id) mid (put l.to (take_in id b) mid) =
          put-IsChanged l.to (take_in id) mid b at_to in
        let (u, at_old, to_b) = first.before l.to b at_to in
        let same_in : b.in_links ≡ u.in_links = ground (arith, to_b) in
        let out_once : drop_one id a.out_links ≡ some (retain_other id a.out_links) =
          drop_one_total id a.out_links
            (one_entry (λ m. m.from) a.out_links (h.outs l.from a at_from id)) in
        let in_once : drop_one id b.in_links ≡ some (retain_other id b.in_links) =
          drop_one_total id b.in_links
            (ap (count id) same_in ∙ one_entry (λ m. m.to) u.in_links (h.ins l.to u at_old id)) in
        (
          record n { nodes = put l.to (take_in id b) mid; links = erase id n.links },
          rw (held, remove_link)
              (rw (at_from, remove_link)
                (rw (out_once, remove_link)
                  (rw (at_to, remove_link) (rw (in_once, remove_link) refl)))),
          IsWired-erase mid (put l.to (take_in id b) mid) first second,
          refl,
          λ y. second.same_keys y ∙ first.same_keys y,
        )
