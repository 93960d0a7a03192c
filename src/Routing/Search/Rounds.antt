-- ===== src/Routing/Search/Rounds.antt =====
-- One round of the search for landmarks: a node leaves the queue, and all its edges are read.
use parallel_qsim_rust.Prelude.{
  ℕ, ◌<◌, ◌≡◌, ◌∙◌, refl, sym, ap, subst, inl, inr, Bool, true, List, [], ◌∷◌, All,
}
use parallel_qsim_rust.Float.{F64}
use parallel_qsim_rust.Routing.Graph.{ok, Result}
use parallel_qsim_rust.Routing.Search.Queue.{KeyedPriorityQueue, QueueLaws}
use parallel_qsim_rust.Routing.Search.Costs.{Extremes, IsCost, Le, CostLaws}
use parallel_qsim_rust.Routing.Search.Core.{IndexableGraph, relax_all, neighbour_edges}
use parallel_qsim_rust.Routing.Search.Actions.{LinkCosts, landmark_actions}
use parallel_qsim_rust.Routing.Search.Walks.{Among, IsEdge, HasEdge, Walk}
use parallel_qsim_rust.Routing.Search.Relaxing.{
  LandmarkState, cost_at, IsSound, Lowers, Lowers-refl, Lowers-trans, relax-Lowers, Floor,
}
use parallel_qsim_rust.Routing.Landmarks.{landmark_request}

module _ {F Q : Type 0} {f : F64 F} {e : Extremes F} {c : KeyedPriorityQueue F Q}
    (ql : QueueLaws F Q f c) (cl : CostLaws F f e) (graph : IndexableGraph F) (costs : LinkCosts F)
    (from : ℕ) (backward : Bool) where
  abbrev pub S : Type 0
  S = LandmarkState ql cl graph costs from backward

  abbrev pub at : S → ℕ → F
  at = cost_at ql cl graph costs from backward

  abbrev pub Sound : S → Type 0
  Sound = IsSound ql cl graph costs from backward

  abbrev pub Lowered : S → S → Type 0
  Lowered = Lowers ql cl graph costs from backward

  abbrev pub EdgeTo : ℕ → ℕ → F → Type 0
  EdgeTo = IsEdge f graph costs from backward

  pub IsEdge-unique : (i v v' : ℕ) (w w' : F) → EdgeTo i v w → EdgeTo i v' w' → (v ≡ v') × (w ≡ w')
  IsEdge-unique i v v' w w' p q =
      let links : ok p.link ≡ ok q.link = sym p.link_eq ∙ q.link_eq in
      let heads : ok v ≡ ok v' = sym p.head_eq ∙ q.head_eq in
      let same : p.link ≡ q.link = cc in
      (cc, sym p.cost_eq ∙ (ap costs.get_link_min_travel_disutility same ∙ q.cost_eq))

  module _ (u : ℕ) (d : F) (edges : List ℕ)
      (edges_eq : neighbour_edges (landmark_request graph from backward) u ≡ ok edges)
      (walk : Walk f graph costs from backward u d) (ok_d : IsCost f e d) where
    abbrev pub Closed : List ℕ → Type 0
    Closed = All (λ i. (v : ℕ) × (w : F) × EdgeTo i v w × (v < graph.nodes_count) × IsCost f e w)

    abbrev pub Read : List ℕ → S → S → Type 0
    Read is s t =
        (i v : ℕ) (w : F)
        → Among i is
        → EdgeTo i v w
        → c.occupied s.queue v ≡ true
        → Le f (at t v) (f.add d w)

    abbrev pub Floored : S → Type 0
    Floored = Floor ql cl graph costs from backward d

    abbrev pub relax_rest : List ℕ → S → Result S
    relax_rest = relax_all f e c (landmark_actions costs) (landmark_request graph from backward) u d

    pub relax_all-Lowers :
        (is : List ℕ) (s : S)
        → ((i : ℕ) → Among i is → Among i edges)
        → Closed is
        → Sound s
        → (t : S) × (relax_rest is s ≡ ok t)
          × Sound t
          × Lowered s t
          × Read is s t
          × (Floored s → Floored t)
    unfolding relax_all
    relax_all-Lowers [] s sub closed sound = (
      s,
      refl,
      sound,
      Lowers-refl ql cl graph costs from backward s,
      λ i v w a. elim a [ ],
      λ h. h,
    )
    relax_all-Lowers (i ∷ is) s sub (known, closed) sound =
        let (v, w, edge, v_lt, ok_w) = known in
        let has : HasEdge f graph costs from backward u i v w = record {
          edges = edges;
          edges_eq = edges_eq;
          among = sub i (inl refl);
          is_edge = edge;
        } in
        let (s', e₁, sound', low, read, floor) =
          relax-Lowers ql cl graph costs from backward u i v w d s sound walk ok_d has v_lt ok_w in
        let (t, e₂, sound_t, low', rest, floor') =
          relax_all-Lowers is s' (λ j a. sub j (inr a)) closed sound' in
        (
          t,
          rw e₁ e₂,
          sound_t,
          Lowers-trans ql cl graph costs from backward s s' t sound sound' sound_t low low',
          λ j v' w' a edge' held. elim a [
            | inl same ↦
                let edge_i : EdgeTo i v' w' = subst (λ k. EdgeTo k v' w') same edge' in
                let (ev, ew) = IsEdge-unique i v v' w w' edge edge_i in
                cl.le_trans (at t v') (at s' v') (f.add d w') (sound_t.cost v') (sound'.cost v')
                  (subst (λ x. IsCost f e (f.add d x)) ew (cl.add_IsCost d w ok_d ok_w))
                  (low'.lower v')
                  (subst (λ x. Le f (at s' v') (f.add d x)) ew
                    (subst (λ k. c.occupied s.queue k ≡ true → Le f (at s' k) (f.add d w)) ev read
                      held))
            | inr later ↦ rest j v' w' later edge' (low.members v' ∙ held)
          ],
          λ h. floor' (floor h),
        )
