-- ===== src/Routing/Converter/Laws.antt =====
-- The graph of a network has, for each node, the links of the node in their order.
use parallel_qsim_rust.Prelude.{
  ℕ, zero, suc, ◌+◌, ◌≡◌, ◌∙◌, refl, sym, ap, subst, Bool, true, false, ◌||◌, Bool-cases, inl, inr,
  Option, none, some, List, [], ◌∷◌, ◌++◌, select, All, length, length-append, append_assoc,
  append-nil, map, get_elem?, arith,
}
use parallel_qsim_rust.Prelude.Maps.{Map, get, contains}
use parallel_qsim_rust.Scenario.RoadNetwork.{Node, Link, Network, contains_mode}
use parallel_qsim_rust.Routing.Converter.{
  Rows, allows, look_up_all, get_links, ends_of, push_row, push_nodes,
}
use parallel_qsim_rust.Routing.Converter.Slices.{concat, starts}

abbrev is_empty : List ℕ → Bool
is_empty [] = true
is_empty (x ∷ xs) = false

module _ {F : Type 0} where
  abbrev pub ids_of_links : List (Link F) → List ℕ
  ids_of_links = map (λ l. l.id)

  -- A link that is stored, with both its ends numbered.
  pub record IsKnown (n : Network F) (indices : Map ℕ) (id : ℕ) : Type 0 where
    pub link : Link F
    pub from_index : ℕ
    pub to_index : ℕ
    pub stored : get id n.links ≡ some link
    pub own : link.id ≡ id
    pub from_eq : get link.from indices ≡ some from_index
    pub to_eq : get link.to indices ≡ some to_index

  -- Whether a link that is stored allows the mode: a link without modes allows every one.
  abbrev pub mode_allowed : Option ℕ → Link F → Bool
  mode_allowed none l = true
  mode_allowed (some mode) l = is_empty l.modes || contains mode l.modes

  abbrev allowed_at : Option ℕ → Option (Link F) → Bool
  allowed_at mode none = false
  allowed_at mode (some l) = mode_allowed mode l

  -- Of the ids, those of links that allow the mode.
  abbrev pub wanted_ids : Network F → Option ℕ → List ℕ → List ℕ
  wanted_ids n mode = select (λ id. allowed_at mode (get id n.links))

  -- The node at one end of a stored link.
  abbrev pub end_at : (Link F → ℕ) → Option (Link F) → Option ℕ
  end_at end none = none
  end_at end (some l) = some (end l)

  record HasEnds (n : Network F) (indices : Map ℕ) (l : Link F) : Type 0 where
    found : get l.id n.links ≡ some l
    from_place : (i : ℕ) × (get l.from indices ≡ some i)
    to_place : (i : ℕ) × (get l.to indices ≡ some i)

  allows-mode_allowed : (mode : Option ℕ) (l : Link F) → allows mode l ≡ mode_allowed mode l
  unfolding allows contains_mode
  allows-mode_allowed none l = refl
  allows-mode_allowed (some mode) l = list_cases l.modes
    where
      list_cases :
          (ms : List ℕ)
          → elim ms [ [] ↦ true | m ∷ ms ↦ contains mode (m ∷ ms) ]
            ≡ is_empty ms || contains mode ms
      list_cases [] = refl
      list_cases (m ∷ ms) = refl

  wanted-cons :
      {n : Network F} (mode : Option ℕ) {indices : Map ℕ} {id : ℕ} (k : IsKnown n indices id)
      (ls : List (Link F)) (ids : List ℕ)
      → ids_of_links (select (allows mode) ls) ≡ wanted_ids n mode ids
      → ids_of_links (select (allows mode) (k.link ∷ ls)) ≡ wanted_ids n mode (id ∷ ids)
  wanted-cons {n} mode {indices} {id} k ls ids same =
      let test : allowed_at mode (get id n.links) ≡ allows mode k.link =
        ap (allowed_at mode) k.stored ∙ sym (allows-mode_allowed mode k.link) in
      elim (Bool-cases (allows mode k.link)) [
        | inl kept ↦
            rw (kept, (test ∙ kept))
              (ap (λ i. i ∷ ids_of_links (select (allows mode) ls)) k.own ∙ ap (λ t. id ∷ t) same)
        | inr gone ↦ rw (gone, (test ∙ gone)) same
      ]

  look_up_all_total :
      (n : Network F) (mode : Option ℕ) (indices : Map ℕ) (ids : List ℕ)
      → All (IsKnown n indices) ids
      → (ls : List (Link F)) × (look_up_all n ids ≡ some ls)
        × All (HasEnds n indices) ls
        × (ids_of_links (select (allows mode) ls) ≡ wanted_ids n mode ids)
  unfolding look_up_all
  look_up_all_total n mode indices [] h = ([], refl, tt, refl)
  look_up_all_total n mode indices (id ∷ ids) (k, ks) =
      let (ls, e, ends, same) = look_up_all_total n mode indices ids ks in
      (
        k.link ∷ ls,
        rw k.stored (rw e refl),
        (
          record {
            found = subst (λ i. get i n.links ≡ some k.link) (sym k.own) k.stored;
            from_place = (k.from_index, k.from_eq);
            to_place = (k.to_index, k.to_eq);
          },
          ends,
        ),
        wanted-cons mode k (look_up_all_total n mode indices ids ks).0 ids same,
      )

  All-select :
      (P : Link F → Type 0) (p : Link F → Bool) (ls : List (Link F))
      → All P ls
      → All P (select p ls)
  All-select P p [] h = tt
  All-select P p (l ∷ ls) (x, xs) = elim (Bool-cases (p l)) [
    | inl kept ↦ rw kept (x, All-select P p ls xs)
    | inr gone ↦ rw gone (All-select P p ls xs)
  ]

  -- Each of the places is that of the node at the end of the link there.
  ends_of_total :
      (end : Link F → ℕ) (n : Network F) (indices : Map ℕ) (nodes : List ℕ) (ls : List (Link F))
      → ((x i : ℕ) → get x indices ≡ some i → get_elem? nodes i ≡ some x)
      → All (λ l. (get l.id n.links ≡ some l) × (i : ℕ) × (get (end l) indices ≡ some i)) ls
      → (is : List ℕ) × (ends_of end indices ls ≡ some is)
        × (length is ≡ length ls)
        × (map (get_elem? nodes) is ≡ map (λ k. end_at end (get k n.links)) (ids_of_links ls))
  unfolding ends_of
  ends_of_total end n indices nodes [] back h = ([], refl, refl, refl)
  ends_of_total end n indices nodes (l ∷ ls) back ((found, i, e), h) =
      let (is, e', len, same) = ends_of_total end n indices nodes ls back h in
      (
        i ∷ is,
        rw e (rw e' refl),
        ap suc len,
        ap (λ o. o ∷ map (get_elem? nodes) is) (back (end l) i e ∙ sym (ap (end_at end) found))
            ∙ ap (λ t. end_at end (get l.id n.links) ∷ t) same,
      )

  -- Rows that grew by some nodes: `pick` gives the ids of the links of each, and `leads` where a link leads, of the
  -- nodes with the ids `nodes`.
  pub record IsGrown (pick : Node F → List ℕ) (leads : ℕ → Option ℕ) (nodes : List ℕ)
      (vs : List (Node F)) (r r' : Rows) : Type 0 where
    pub rows : List (List ℕ)
    pub head_rows : List (List ℕ)
    pub bounds : r'.first_out ++ r'.before ∷ [] ≡ r.first_out ++ starts r.before rows
    pub same_starts : (base : ℕ) → starts base head_rows ≡ starts base rows
    pub ids : r'.link_ids ≡ r.link_ids ++ concat rows
    pub head_ids : r'.head ≡ r.head ++ concat head_rows
    pub heads : length r'.head ≡ length r.head + length (concat rows)
    pub total : r'.before ≡ r.before + length (concat rows)
    pub size : length r'.first_out ≡ length r.first_out + length vs
    pub row :
        (j : ℕ) (v : Node F)
        → get_elem? vs j ≡ some v
        → (hs : List ℕ) × (get_elem? rows j ≡ some (pick v))
          × (get_elem? head_rows j ≡ some hs)
          × (map (get_elem? nodes) hs ≡ map leads (pick v))

  module _ (pick : Node F → List ℕ) (leads : ℕ → Option ℕ) (nodes : List ℕ) where
    IsGrown-nil : (r : Rows) → IsGrown pick leads nodes [] r r
    IsGrown-nil r = record {
      rows = [];
      head_rows = [];
      bounds = refl;
      same_starts = λ base. refl;
      ids = sym (append-nil r.link_ids);
      head_ids = sym (append-nil r.head);
      heads = omega arith;
      total = omega arith;
      size = omega arith;
      row = λ j v e. cc;
    }

    AreRows : List (Node F) → (rows head_rows : List (List ℕ)) → Type 0
    AreRows vs rows head_rows =
        (j : ℕ) (v : Node F)
        → get_elem? vs j ≡ some v
        → (hs : List ℕ) × (get_elem? rows j ≡ some (pick v))
          × (get_elem? head_rows j ≡ some hs)
          × (map (get_elem? nodes) hs ≡ map leads (pick v))

    row-cons :
        (v : Node F) (vs : List (Node F)) (ids heads : List ℕ) (rows head_rows : List (List ℕ))
        → ids ≡ pick v
        → map (get_elem? nodes) heads ≡ map leads ids
        → AreRows vs rows head_rows
        → AreRows (v ∷ vs) (ids ∷ rows) (heads ∷ head_rows)
    unfolding AreRows
    row-cons v vs ids heads rows head_rows picked led h zero w e =
        let same : v ≡ w = cc in
        let picked_w : ids ≡ pick w = picked ∙ ap pick same in
        (heads, ap some picked_w, refl, led ∙ ap (map leads) picked_w)
    row-cons v vs ids heads rows head_rows picked led h (suc j) w e = h j w e

    length-ids : (ls : List (Link F)) → length (ids_of_links ls) ≡ length ls
    length-ids [] = refl
    length-ids (l ∷ ls) = ap suc (length-ids ls)

    -- One more node in front.
    IsGrown-cons :
        (v : Node F) (vs : List (Node F)) (ls : List (Link F)) (heads : List ℕ) (r r' : Rows)
        → ids_of_links ls ≡ pick v
        → length heads ≡ length ls
        → map (get_elem? nodes) heads ≡ map leads (ids_of_links ls)
        → IsGrown pick leads nodes vs
            (record {
              first_out = r.first_out ++ r.before ∷ [];
              head = r.head ++ heads;
              link_ids = r.link_ids ++ ids_of_links ls;
              before = r.before + length ls;
            })
            r'
        → IsGrown pick leads nodes (v ∷ vs) r r'
    unfolding AreRows
    IsGrown-cons v vs ls heads r r' picked len led g =
        let size = length-ids ls in
        record {
          rows = ids_of_links ls ∷ g.rows;
          head_rows = heads ∷ g.head_rows;
          bounds =
              g.bounds
              ∙ (append_assoc r.first_out (r.before ∷ []) (starts (r.before + length ls) g.rows)
                  ∙ ap (λ (k : ℕ). r.first_out ++ r.before ∷ starts (r.before + k) g.rows)
                      (sym size));
          same_starts = λ base.
              ap (λ t. base ∷ t)
                (g.same_starts (base + length heads)
                  ∙ ap (λ k. starts (base + k) g.rows) (len ∙ sym size));
          ids = g.ids ∙ append_assoc r.link_ids (ids_of_links ls) (concat g.rows);
          head_ids = g.head_ids ∙ append_assoc r.head heads (concat g.head_rows);
          heads = omega (
            arith,
            g.heads,
            size,
            len,
            length-append {0} r.head heads,
            length-append {0} (ids_of_links ls) (concat g.rows),
          );
          total = omega (arith, g.total, size, length-append {0} (ids_of_links ls) (concat g.rows));
          size = omega (arith, g.size, length-append {0} r.first_out (r.before ∷ []));
          row = row-cons v vs (ids_of_links ls) heads g.rows g.head_rows picked led g.row;
        }

  module _ (sort : List ℕ → List ℕ) (n : Network F) (mode : Option ℕ) (indices : Map ℕ) where
    abbrev pub out_row : Node F → List ℕ
    out_row v = wanted_ids n mode (sort v.out_links)

    abbrev pub in_row : Node F → List ℕ
    in_row v = wanted_ids n mode (sort v.in_links)

    abbrev pub AreKnown : Node F → Type 0
    AreKnown v =
        All (IsKnown n indices) (sort v.out_links) × All (IsKnown n indices) (sort v.in_links)

    get_links_total :
        (ids : List ℕ)
        → All (IsKnown n indices) (sort ids)
        → (ls : List (Link F)) × (get_links sort n mode ids ≡ some ls)
          × All (HasEnds n indices) ls
          × (ids_of_links ls ≡ wanted_ids n mode (sort ids))
    unfolding get_links
    get_links_total ids known =
        let (ls, e, ends, same) = look_up_all_total n mode indices (sort ids) known in
        (
          select (allows mode) ls,
          rw e refl,
          All-select (HasEnds n indices) (allows mode) ls ends,
          same,
        )

    froms :
        (ls : List (Link F))
        → All (HasEnds n indices) ls
        → All (λ l. (get l.id n.links ≡ some l) × (i : ℕ) × (get l.from indices ≡ some i)) ls
    froms [] h = tt
    froms (l ∷ ls) (x, xs) = ((x.found, x.from_place.0, x.from_place.1), froms ls xs)

    tos :
        (ls : List (Link F))
        → All (HasEnds n indices) ls
        → All (λ l. (get l.id n.links ≡ some l) × (i : ℕ) × (get l.to indices ≡ some i)) ls
    tos [] h = tt
    tos (l ∷ ls) (x, xs) = ((x.found, x.to_place.0, x.to_place.1), tos ls xs)

    abbrev pub leads_to : ℕ → Option ℕ
    leads_to k = end_at (λ l. l.to) (get k n.links)

    abbrev pub leads_from : ℕ → Option ℕ
    leads_from k = end_at (λ l. l.from) (get k n.links)

    module _ (nodes : List ℕ)
        (back : (x i : ℕ) → get x indices ≡ some i → get_elem? nodes i ≡ some x) where
      pub push_nodes-IsGrown :
          (vs : List (Node F)) (f b : Rows)
          → All AreKnown vs
          → (f' : Rows) × (b' : Rows) × (push_nodes sort n mode indices vs (f, b) ≡ some (f', b'))
            × IsGrown out_row leads_to nodes vs f f'
            × IsGrown in_row leads_from nodes vs b b'
      unfolding push_nodes push_row
      push_nodes-IsGrown [] f b h =
          (f, b, refl, IsGrown-nil out_row leads_to nodes f, IsGrown-nil in_row leads_from nodes b)
      push_nodes-IsGrown (v ∷ vs) f b ((outs, ins), h) =
          let (ols, oe, oends, osame) = get_links_total v.out_links outs in
          let (ils, ie, iends, isame) = get_links_total v.in_links ins in
          let (ohs, oh, olen, oled) =
            ends_of_total (λ l. l.to) n indices nodes ols back (tos ols oends) in
          let (ihs, ih, ilen, iled) =
            ends_of_total (λ l. l.from) n indices nodes ils back (froms ils iends) in
          let (f', b', run, gf, gb) =
            push_nodes-IsGrown vs
              (record {
                first_out = f.first_out ++ f.before ∷ [];
                head = f.head ++ ohs;
                link_ids = f.link_ids ++ ids_of_links ols;
                before = f.before + length ols;
              })
              (record {
                first_out = b.first_out ++ b.before ∷ [];
                head = b.head ++ ihs;
                link_ids = b.link_ids ++ ids_of_links ils;
                before = b.before + length ils;
              })
              h in
          (
            f',
            b',
            rw oe (rw ie (rw oh (rw ih run))),
            IsGrown-cons out_row leads_to nodes v vs ols ohs f f' osame olen oled gf,
            IsGrown-cons in_row leads_from nodes v vs ils ihs b b' isame ilen iled gb,
          )
