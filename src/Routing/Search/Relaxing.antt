-- ===== src/Routing/Search/Relaxing.antt =====
-- The edges of one node of the search for landmarks.
use parallel_qsim_rust.Prelude.{
  ℕ, ◌<◌, ◌≡◌, ◌∙◌, refl, sym, subst, ◌⊎◌, inl, inr, ◌==◌, Bool, true, false, Bool-cases,
  if◌then◌else◌, some, length, arith,
}
use parallel_qsim_rust.Float.{F64}
use parallel_qsim_rust.Routing.Graph.{ok, Result}
use parallel_qsim_rust.Routing.Search.Queue.{KeyedPriorityQueue, QueueLaws}
use parallel_qsim_rust.Routing.Search.Costs.{Extremes, zero_cost, IsCost, Le, CostLaws}
use parallel_qsim_rust.Routing.Search.Core.{
  IndexableGraph, State, set, relax, improve, heuristic_estimate,
}
use parallel_qsim_rust.Routing.Search.Actions.{LinkCosts, landmark_actions}
use parallel_qsim_rust.Routing.Search.Reads.{get_or, get_elem?-get_or, length-set, get_or-set}
use parallel_qsim_rust.Routing.Search.Walks.{HasEdge, Walk, step}
use parallel_qsim_rust.Routing.Landmarks.{landmark_request}

module _ {F Q : Type 0} {f : F64 F} {e : Extremes F} {c : KeyedPriorityQueue F Q}
    (ql : QueueLaws F Q f c) (cl : CostLaws F f e) (graph : IndexableGraph F) (costs : LinkCosts F)
    (from : ℕ) (backward : Bool) where
  abbrev pub LandmarkState : Type 0
  LandmarkState = State F Q (Unit {0})

  -- The cost found for a node.
  abbrev pub cost_at : LandmarkState → ℕ → F
  cost_at s v = get_or s.disutilities v e.infinity

  -- A cost found is infinite or that of a walk, and it is the priority of its node up to rounding.
  pub record IsSound (s : LandmarkState) : Type 0 where
    pub size : length s.disutilities ≡ graph.nodes_count
    pub within : (v : ℕ) → c.occupied s.queue v ≡ true → v < graph.nodes_count
    pub cost : (v : ℕ) → IsCost f e (cost_at s v)
    pub walk :
        (v : ℕ) → (cost_at s v ≡ e.infinity) ⊎ Walk f graph costs from backward v (cost_at s v)
    pub priority :
        (v : ℕ) (p : F)
        → ql.get_priority s.queue v ≡ some p
        → IsCost f e p × Le f p (cost_at s v) × Le f (cost_at s v) p

  -- What the edges of a node change: the costs of nodes in the queue, which only fall.
  pub record Lowers (s t : LandmarkState) : Type 0 where
    pub size : length t.disutilities ≡ length s.disutilities
    pub members : (v : ℕ) → c.occupied t.queue v ≡ c.occupied s.queue v
    pub len : ql.len t.queue ≡ ql.len s.queue
    pub kept : (v : ℕ) → c.occupied s.queue v ≡ false → cost_at t v ≡ cost_at s v
    pub lower : (v : ℕ) → Le f (cost_at t v) (cost_at s v)

  pub Lowers-refl : (s : LandmarkState) → Lowers s s
  Lowers-refl s = record {
    size = refl;
    members = λ v. refl;
    len = refl;
    kept = λ v h. refl;
    lower = λ v. cl.le_refl (cost_at s v);
  }

  pub Lowers-trans :
      (s t r : LandmarkState)
      → IsSound s
      → IsSound t
      → IsSound r
      → Lowers s t
      → Lowers t r
      → Lowers s r
  Lowers-trans s t r p q u h k = record {
    size = k.size ∙ h.size;
    members = λ v. k.members v ∙ h.members v;
    len = k.len ∙ h.len;
    kept = λ v o. k.kept v (h.members v ∙ o) ∙ h.kept v o;
    lower = λ v.
        cl.le_trans (cost_at r v) (cost_at t v) (cost_at s v) (u.cost v) (q.cost v) (p.cost v)
          (k.lower v) (h.lower v);
  }

  -- The state after an edge that is cheaper: the cost of its end and the priority change.
  abbrev pub improved : LandmarkState → ℕ → F → LandmarkState
  improved s v nd = record {
    queue = c.set_priority s.queue v (f.add nd (zero_cost f));
    disutilities = set s.disutilities v nd;
    options = tt;
  }

  module _ (s : LandmarkState) (v : ℕ) (nd : F) (sound : IsSound s)
      (held : c.occupied s.queue v ≡ true) where
    cost_at-improved : (j : ℕ) → cost_at (improved s v nd) j ≡ (if v == j then nd else cost_at s j)
    cost_at-improved j =
        get_or-set s.disutilities v j nd e.infinity (omega (arith, sound.size, sound.within v held))

    occupied-improved : (j : ℕ) → c.occupied (improved s v nd).queue j ≡ c.occupied s.queue j
    occupied-improved j = ground (
      arith,
      ql.occupied_iff s.queue j,
      ql.occupied_iff s.queue v,
      ql.occupied_iff (c.set_priority s.queue v (f.add nd (zero_cost f))) j,
      ql.set_get s.queue v (f.add nd (zero_cost f)) j held,
    )

    improved-IsSound :
        IsCost f e nd → Walk f graph costs from backward v nd → IsSound (improved s v nd)
    improved-IsSound ok_nd walk_nd = record {
      size = length-set s.disutilities v nd ∙ sound.size;
      within = λ j h. sound.within j (sym (occupied-improved j) ∙ h);
      cost = λ j. elim (Bool-cases (v == j)) [
        | inl same ↦ rw (cost_at-improved j) (rw same ok_nd)
        | inr other ↦ rw (cost_at-improved j) (rw other (sound.cost j))
      ];
      walk = λ j. elim (Bool-cases (v == j)) [
        | inl same ↦
            let at_v : v ≡ j = ground arith in
            rw (cost_at-improved j)
              (rw same (inr (subst (λ k. Walk f graph costs from backward k nd) at_v walk_nd)))
        | inr other ↦ rw (cost_at-improved j) (rw other (sound.walk j))
      ];
      priority = λ j p h. elim (Bool-cases (v == j)) [
        | inl same ↦
            let here_p : p ≡ f.add nd (zero_cost f) =
              ground (arith, ql.set_get s.queue v (f.add nd (zero_cost f)) j held) in
            rw (cost_at-improved j) (
              rw same (
                rw here_p (
                  cl.add_IsCost nd (zero_cost f) ok_nd cl.zero_IsCost,
                  cl.add_zero_le nd ok_nd,
                  cl.le-add nd (zero_cost f) ok_nd cl.zero_IsCost,
                )))
        | inr other ↦ rw (cost_at-improved j) (
            rw other (
              sound.priority j p
                (ground (arith, ql.set_get s.queue v (f.add nd (zero_cost f)) j held))))
      ];
    }

    improved-Lowers : f.lt nd (cost_at s v) ≡ true → Lowers s (improved s v nd)
    improved-Lowers less = record {
      size = length-set s.disutilities v nd;
      members = occupied-improved;
      len = ql.set_len s.queue v (f.add nd (zero_cost f)) held;
      kept = λ j free. ground (arith, cost_at-improved j);
      lower = λ j. elim (Bool-cases (v == j)) [
        | inl same ↦
            let at_v : v ≡ j = ground arith in
            rw (cost_at-improved j)
              (rw same (subst (λ k. Le f nd (cost_at s k)) at_v (cl.lt_asym nd (cost_at s v) less)))
        | inr other ↦ rw (cost_at-improved j) (rw other (cl.le_refl (cost_at s j)))
      ];
    }

  -- No node in the queue costs less than `d`.
  abbrev pub Floor : F → LandmarkState → Type 0
  Floor d s = (v : ℕ) → c.occupied s.queue v ≡ true → Le f d (cost_at s v)

  improved-Floor :
      (s : LandmarkState) (v : ℕ) (nd d : F) (sound : IsSound s)
      (held : c.occupied s.queue v ≡ true)
      → Le f d nd
      → Floor d s
      → Floor d (improved s v nd)
  improved-Floor s v nd d sound held le floor j h = elim (Bool-cases (v == j)) [
    | inl same ↦ rw (cost_at-improved s v nd sound held j) (rw same le)
    | inr other ↦
        rw (cost_at-improved s v nd sound held j)
          (rw other (floor j (sym (occupied-improved s v nd sound held j) ∙ h)))
  ]

  abbrev pub relax_here : ℕ → F → ℕ → LandmarkState → Result LandmarkState
  relax_here = relax f e c (landmark_actions costs) (landmark_request graph from backward)

  pub relax-Lowers :
      (u i v : ℕ) (w d : F) (s : LandmarkState)
      → IsSound s
      → Walk f graph costs from backward u d
      → IsCost f e d
      → HasEdge f graph costs from backward u i v w
      → v < graph.nodes_count
      → IsCost f e w
      → (t : LandmarkState) × (relax_here u d i s ≡ ok t)
        × IsSound t
        × Lowers s t
        × (c.occupied s.queue v ≡ true → Le f (cost_at t v) (f.add d w))
        × (Floor d s → Floor d t)
  unfolding relax improve heuristic_estimate landmark_actions
  relax-Lowers u i v w d s sound walk ok_d edge v_lt ok_w =
      let at = get_elem?-get_or s.disutilities v e.infinity (omega (arith, sound.size)) in
      let head = edge.is_edge.head_eq in
      let found = edge.is_edge.link_eq in
      let price = edge.is_edge.cost_eq in
      elim (Bool-cases (c.occupied s.queue v)) [
        | inr free ↦ (s, rw head (rw free refl), sound, Lowers-refl s, λ h. cc, λ h. h)
        | inl held ↦ elim (Bool-cases (f.lt (f.add d w) (cost_at s v))) [
          | inl less ↦ (
            improved s v (f.add d w),
            rw head (rw held (rw found (rw price (rw at (rw less refl))))),
            improved-IsSound s v (f.add d w) sound held (cl.add_IsCost d w ok_d ok_w)
                (step walk edge),
            improved-Lowers s v (f.add d w) sound held less,
            λ h.
                let same : (v == v) ≡ true = ground arith in
                rw (cost_at-improved s v (f.add d w) sound held v)
                  (rw same (cl.le_refl (f.add d w))),
            λ floor. improved-Floor s v (f.add d w) d sound held (cl.le-add d w ok_d ok_w) floor,
          )
          | inr more ↦ (
            s,
            rw head (rw held (rw found (rw price (rw at (rw more refl))))),
            sound,
            Lowers-refl s,
            λ h. more,
            λ h. h,
          )
        ]
      ]
