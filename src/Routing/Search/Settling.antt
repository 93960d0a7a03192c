-- ===== src/Routing/Search/Settling.antt =====
-- What holds between the rounds of the search for landmarks, and that a round keeps it.
use parallel_qsim_rust.Prelude.{
  ℕ, suc, ◌<◌, ◌≡◌, ◌∙◌, sym, ap, subst, inl, inr, ◌==◌, Bool, true, false, Bool-cases,
  Option-cases, if◌then◌else◌, some, List, [], ◌∷◌, All, arith,
}
use parallel_qsim_rust.Float.{F64}
use parallel_qsim_rust.Routing.Graph.{ok, Result, ◌>>=◌}
use parallel_qsim_rust.Routing.Search.Queue.{KeyedPriorityQueue, QueueLaws}
use parallel_qsim_rust.Routing.Search.Costs.{Extremes, zero_cost, IsCost, Le, CostLaws}
use parallel_qsim_rust.Routing.Search.Core.{
  IndexableGraph, relax_all, neighbour_edges, is_unreachable,
}
use parallel_qsim_rust.Routing.Search.Actions.{LinkCosts, landmark_actions}
use parallel_qsim_rust.Routing.Search.Walks.{Among, HasEdge, Walk, here, step, IsClosed}
use parallel_qsim_rust.Routing.Search.Relaxing.{Floor}
use parallel_qsim_rust.Routing.Search.Rounds.{
  S, at, Sound, Lowered, EdgeTo, IsEdge-unique, relax_all-Lowers,
}
use parallel_qsim_rust.Routing.Landmarks.{landmark_request}

module _ {F Q : Type 0} {f : F64 F} {e : Extremes F} {c : KeyedPriorityQueue F Q}
    (ql : QueueLaws F Q f c) (cl : CostLaws F f e) (graph : IndexableGraph F) (costs : LinkCosts F)
    (from : ℕ) (backward : Bool) (closed : IsClosed f graph costs from backward e) where
  abbrev pub St : Type 0
  St = S ql cl graph costs from backward

  abbrev pub cost : St → ℕ → F
  cost = at ql cl graph costs from backward

  abbrev pub Edge : ℕ → ℕ → ℕ → F → Type 0
  Edge = HasEdge f graph costs from backward

  -- A node that left the queue is final: none in the queue costs less, and its edges have been read.
  pub record IsSettled (s : St) : Type 0 where
    pub sound : Sound ql cl graph costs from backward s
    pub source : Le f (cost s from) (zero_cost f)
    pub order :
        (u v : ℕ)
        → u < graph.nodes_count
        → c.occupied s.queue u ≡ false
        → c.occupied s.queue v ≡ true
        → Le f (cost s u) (cost s v)
    pub read :
        (u i v : ℕ) (w : F)
        → u < graph.nodes_count
        → c.occupied s.queue u ≡ false
        → Edge u i v w
        → Le f (cost s v) (f.add (cost s u) w)

  find_closed :
      (i : ℕ) (is : List ℕ)
      → Among i is
      → All
          (λ i.
            (v : ℕ) × (w : F) × EdgeTo ql cl graph costs from backward i v w
            × (v < graph.nodes_count)
            × IsCost f e w)
          is
      → (v : ℕ) × (w : F) × EdgeTo ql cl graph costs from backward i v w
        × (v < graph.nodes_count)
        × IsCost f e w
  find_closed i [] a all = elim a [ ]
  find_closed i (x ∷ xs) (inl same) (known, rest) =
      subst
        (λ k.
          (v : ℕ) × (w : F) × EdgeTo ql cl graph costs from backward k v w
          × (v < graph.nodes_count)
          × IsCost f e w)
        (sym same) known
  find_closed i (x ∷ xs) (inr later) (known, rest) = find_closed i xs later rest

  ok_inj : (xs ys : List ℕ) → ok xs ≡ ok ys → xs ≡ ys
  ok_inj xs ys h = cc

  pub HasEdge-closed :
      (u i v : ℕ) (w : F)
      → u < graph.nodes_count
      → Edge u i v w
      → (v < graph.nodes_count) × IsCost f e w
  HasEdge-closed u i v w u_lt edge =
      let (es, es_eq, all) = closed.edges_of u u_lt in
      let same = ok_inj edge.edges es (sym edge.edges_eq ∙ es_eq) in
      let (v', w', known, v_lt, ok_w) = find_closed i es (subst (Among i) same edge.among) all in
      let (ev, ew) = IsEdge-unique ql cl graph costs from backward i v' v w' w known edge.is_edge in
      (subst (λ k. k < graph.nodes_count) ev v_lt, subst (IsCost f e) ew ok_w)

  pub Walk-closed :
      (v : ℕ) (d : F)
      → Walk f graph costs from backward v d
      → (v < graph.nodes_count) × IsCost f e d
  Walk-closed _ _ here = (closed.from_lt, cl.zero_IsCost)
  Walk-closed _ _ (step {u} {i} {v} {d} {w} walk edge) =
      let (u_lt, ok_d) = Walk-closed u d walk in
      let (v_lt, ok_w) = HasEdge-closed u i v w u_lt edge in (v_lt, cl.add_IsCost d w ok_d ok_w)

  -- A state whose queue lost a node, taken as a whole.
  module _ (s : St) (settled : IsSettled s) (u : ℕ) (p : F) (q' : Q)
      (popped : c.pop s.queue ≡ some (u, p, q')) where
    abbrev pub rest : St
    rest = record s { queue = q' }

    pub popped_member : c.occupied s.queue u ≡ true
    popped_member = ground (arith, ql.occupied_iff s.queue u, ql.pop_key s.queue u p q' popped)

    pub popped_lt : u < graph.nodes_count
    popped_lt = settled.sound.within u popped_member

    occupied-rest : (j : ℕ) → c.occupied q' j ≡ (if u == j then false else c.occupied s.queue j)
    occupied-rest j =
        ground (
          arith,
          ql.occupied_iff s.queue j,
          ql.occupied_iff q' j,
          ql.pop_get s.queue u p q' j popped,
        )

    pub popped-least : (v : ℕ) → c.occupied s.queue v ≡ true → Le f (cost s u) (cost s v)
    popped-least v held = elim (Option-cases (ql.get_priority s.queue v)) [
      | inl gone ↦ absurd (ground (arith, ql.occupied_iff s.queue v))
      | inr (r, r_eq) ↦
          let (ok_p, _, u_le) = settled.sound.priority u p (ql.pop_key s.queue u p q' popped) in
          let (ok_r, r_le, _) = settled.sound.priority v r r_eq in
          let ok_u = settled.sound.cost u in
          cl.le_trans (cost s u) p (cost s v) ok_u ok_p (settled.sound.cost v) u_le (
            cl.le_trans p r (cost s v) ok_p ok_r (settled.sound.cost v)
              (ql.pop_least s.queue u p q' v r popped r_eq) r_le)
    ]

    popped-reached :
        is_unreachable f e (cost s u) ≡ false → Walk f graph costs from backward u (cost s u)
    unfolding is_unreachable
    popped-reached reached = elim (settled.sound.walk u) [
      | inl infinite ↦
          absurd (ground (arith, ap (λ (x : F). f.eq x e.infinity) infinite, cl.infinity_eq))
      | inr walk ↦ walk
    ]

    rest-Sound : Sound ql cl graph costs from backward rest
    rest-Sound = record {
      size = settled.sound.size;
      within = λ j h. settled.sound.within j (ground (arith, occupied-rest j));
      cost = settled.sound.cost;
      walk = settled.sound.walk;
      priority =
          λ j r h. settled.sound.priority j r (ground (arith, ql.pop_get s.queue u p q' j popped));
    }

    rest-Floor : Floor ql cl graph costs from backward (cost s u) rest
    rest-Floor j h = popped-least j (ground (arith, occupied-rest j))

    -- Of the nodes out of the queue, the one that left last costs most.
    freed : (v : ℕ) → v < graph.nodes_count → c.occupied q' v ≡ false → Le f (cost s v) (cost s u)
    freed v v_lt free = elim (Bool-cases (u == v)) [
      | inl same ↦
          let at_u : u ≡ v = ground arith in
          subst (λ k. Le f (cost s k) (cost s u)) at_u (cl.le_refl (cost s u))
      | inr other ↦ settled.order v u v_lt (ground (arith, occupied-rest v)) popped_member
    ]

    read_here :
        (i b : ℕ) (w : F) (t : St)
        → Edge u i b w
        → (es : List ℕ) → neighbour_edges (landmark_request graph from backward) u ≡ ok es
        → Lowered ql cl graph costs from backward rest t
        → (Among i es
            → EdgeTo ql cl graph costs from backward i b w
            → c.occupied q' b ≡ true
            → Le f (cost t b) (f.add (cost s u) w))
        → Le f (cost t b) (f.add (cost s u) w)
    read_here i b w t edge es es_eq low read =
        let (b_lt, ok_w) = HasEdge-closed u i b w popped_lt edge in
        let ok_u = settled.sound.cost u in
        elim (Bool-cases (c.occupied q' b)) [
          | inl held ↦
              read (subst (Among i) (ok_inj edge.edges es (sym edge.edges_eq ∙ es_eq)) edge.among)
                edge.is_edge held
          | inr free ↦
              subst (λ x. Le f x (f.add (cost s u) w)) (sym (low.kept b free))
                (cl.le_trans (cost s b) (cost s u) (f.add (cost s u) w) (settled.sound.cost b) ok_u
                  (cl.add_IsCost (cost s u) w ok_u ok_w) (freed b b_lt free)
                  (cl.le-add (cost s u) w ok_u ok_w))
        ]

    unfoldable pub round_edges : Result St
    round_edges = neighbour_edges (landmark_request graph from backward) u >>= λ edges.
        relax_all f e c (landmark_actions costs) (landmark_request graph from backward) u (cost s u)
          edges rest

    pub round-IsSettled :
        is_unreachable f e (cost s u) ≡ false
        → (t : St) × (round_edges ≡ ok t) × IsSettled t × (suc (ql.len t.queue) ≡ ql.len s.queue)
    unfolding round_edges
    round-IsSettled reached =
        let (es, es_eq, known) = closed.edges_of u popped_lt in
        let ok_u = settled.sound.cost u in
        let (t, eq, sound, low, read, floor) =
          relax_all-Lowers ql cl graph costs from backward u (cost s u) es es_eq
            (popped-reached reached) ok_u es rest (λ i a. a) known rest-Sound in
        let read_u = λ (i b : ℕ) (w : F) (edge : Edge u i b w).
          read_here i b w t edge es es_eq low (read i b w) in
        (
          t,
          rw es_eq eq,
          record {
            sound = sound;
            source =
                cl.le_trans (cost t from) (cost s from) (zero_cost f) (sound.cost from)
                  (settled.sound.cost from) cl.zero_IsCost (low.lower from) settled.source;
            order = λ a b a_lt free held.
                let free' = sym (low.members a) ∙ free in
                subst (λ x. Le f x (cost t b)) (sym (low.kept a free'))
                  (cl.le_trans (cost s a) (cost s u) (cost t b) (settled.sound.cost a) ok_u
                    (sound.cost b) (freed a a_lt free') (floor rest-Floor b held));
            read = λ a i b w a_lt free edge.
                let free' = sym (low.members a) ∙ free in
                subst (λ x. Le f (cost t b) (f.add x w)) (sym (low.kept a free'))
                  (elim (Bool-cases (u == a)) [
                    | inl same ↦
                        let at_u : u ≡ a = ground arith in
                        subst (λ k. Edge k i b w → Le f (cost t b) (f.add (cost s k) w)) at_u
                          (read_u i b w) edge
                    | inr other ↦
                        let (b_lt, ok_w) = HasEdge-closed a i b w a_lt edge in
                        cl.le_trans (cost t b) (cost s b) (f.add (cost s a) w) (sound.cost b)
                          (settled.sound.cost b)
                          (cl.add_IsCost (cost s a) w (settled.sound.cost a) ok_w) (low.lower b)
                          (settled.read a i b w a_lt (ground (arith, occupied-rest a)) edge)
                  ]);
          },
          ap suc low.len ∙ ql.pop_len s.queue u p q' popped,
        )
