-- ===== src/Routing/Search/Least.antt =====
-- The search for landmarks ends with the least costs.
use parallel_qsim_rust.Prelude.{
  ℕ, zero, suc, ◌<◌, ◌≡◌, ◌∙◌, refl, sym, subst, ◌⊎◌, inl, inr, ◌==◌, Bool, true, ltb, Bool-cases,
  Option-cases, some, List, length, arith,
}
use parallel_qsim_rust.Float.{F64}
use parallel_qsim_rust.Routing.Graph.{ok}
use parallel_qsim_rust.Routing.Search.Queue.{KeyedPriorityQueue, QueueLaws}
use parallel_qsim_rust.Routing.Search.Costs.{Extremes, zero_cost, IsCost, Le, CostLaws}
use parallel_qsim_rust.Routing.Search.Core.{
  IndexableGraph, is_unreachable, search_loop, a_star_core, get_initial_queue,
  disutility_to_all_without_parents,
}
use parallel_qsim_rust.Routing.Search.Actions.{LinkCosts, landmark_actions}
use parallel_qsim_rust.Routing.Search.Walks.{Walk, here, step, IsClosed}
use parallel_qsim_rust.Routing.Search.Reads.{get_or, get_elem?-get_or}
use parallel_qsim_rust.Routing.Search.Filling.{IsFilled, get_initial_queue-IsFilled, start_cost}
use parallel_qsim_rust.Routing.Search.Settling.{
  St, cost, IsSettled, HasEdge-closed, Walk-closed, round-IsSettled, round_edges, popped_lt,
  popped-least,
}
use parallel_qsim_rust.Routing.Landmarks.{landmark_request, disutilities_one_2_many}

-- The costs of a list are least: each is that of a walk or infinite, and no walk costs less.
pub record AreLeast {F : Type 0} (f : F64 F) (e : Extremes F) (graph : IndexableGraph F)
    (costs : LinkCosts F) (from : ℕ) (backward : Bool) (ds : List F) : Type 0 where
  pub size : length ds ≡ graph.nodes_count
  pub attained :
      (v : ℕ)
      → (get_or ds v e.infinity ≡ e.infinity)
        ⊎ Walk f graph costs from backward v (get_or ds v e.infinity)
  pub least :
      (v : ℕ) (d : F) → Walk f graph costs from backward v d → Le f (get_or ds v e.infinity) d

module _ {F Q : Type 0} {f : F64 F} {e : Extremes F} {c : KeyedPriorityQueue F Q}
    (ql : QueueLaws F Q f c) (cl : CostLaws F f e) (graph : IndexableGraph F) (costs : LinkCosts F)
    (from : ℕ) (backward : Bool) (closed : IsClosed f graph costs from backward e) where
  abbrev Here : Type 0
  Here = St ql cl graph costs from backward closed

  abbrev found : Here → ℕ → F
  found = cost ql cl graph costs from backward closed

  abbrev Settled : Here → Type 0
  Settled = IsSettled ql cl graph costs from backward closed

  -- All that is left in the queue is out of reach.
  abbrev Exhausted : Here → Type 0
  Exhausted s = (v : ℕ) → c.occupied s.queue v ≡ true → Le f e.infinity (found s v)

  walk-least :
      (s : Here)
      → Settled s
      → Exhausted s
      → (v : ℕ) (d : F) → Walk f graph costs from backward v d
      → Le f (found s v) d
  walk-least s settled done _ _ here = settled.source
  walk-least s settled done _ _ (step {u} {i} {v} {d} {w} walk edge) =
      let (u_lt, ok_d) = Walk-closed ql cl graph costs from backward closed u d walk in
      let (v_lt, ok_w) = HasEdge-closed ql cl graph costs from backward closed u i v w u_lt edge in
      let ok_v = settled.sound.cost v in
      let ok_u = settled.sound.cost u in
      let sum = cl.add_IsCost d w ok_d ok_w in
      let ih = walk-least s settled done u d walk in
      elim (Bool-cases (c.occupied s.queue u)) [
        | inl held ↦
            cl.le_trans (found s v) e.infinity (f.add d w) ok_v cl.infinity_IsCost sum
              (cl.le_infinity (found s v) ok_v)
              (cl.le_trans e.infinity d (f.add d w) cl.infinity_IsCost ok_d sum
                (cl.le_trans e.infinity (found s u) d cl.infinity_IsCost ok_u ok_d (done u held) ih)
                (cl.le-add d w ok_d ok_w))
        | inr free ↦
            cl.le_trans (found s v) (f.add (found s u) w) (f.add d w) ok_v
              (cl.add_IsCost (found s u) w ok_u ok_w) sum (settled.read u i v w u_lt free edge)
              (cl.add_mono (found s u) d w ok_u ok_d ok_w ih)
      ]

  Settled-AreLeast :
      (s : Here) → Settled s → Exhausted s → AreLeast f e graph costs from backward s.disutilities
  Settled-AreLeast s settled done = record {
    size = settled.sound.size;
    attained = settled.sound.walk;
    least = walk-least s settled done;
  }

  unreachable-infinite : (d : F) → IsCost f e d → is_unreachable f e d ≡ true → Le f e.infinity d
  unfolding is_unreachable
  unreachable-infinite d ok_d h = ground (arith, cl.eq_infinity d ok_d, ok_d.0)

  search_loop-AreLeast :
      (fuel : ℕ) (s : Here)
      → Settled s
      → ql.len s.queue < fuel
      → (ds : List F) × (search_loop f e c
            (landmark_actions costs)
            (landmark_request graph from backward)
            fuel
            s
          ≡ some (ok (disutility_to_all_without_parents ds)))
        × AreLeast f e graph costs from backward ds
  unfolding search_loop landmark_actions round_edges
  search_loop-AreLeast zero s settled h = absurd (omega arith)
  search_loop-AreLeast (suc fuel) s settled h = elim (Option-cases (c.pop s.queue)) [
    | inl gone ↦ (
      s.disutilities,
      rw (gone, search_loop) refl,
      Settled-AreLeast s settled (λ v held.
          absurd (ground (arith, ql.occupied_iff s.queue v, ql.pop_none s.queue v gone))),
    )
    | inr ((u, p, q'), popped) ↦
        let read = get_elem?-get_or s.disutilities u e.infinity (
          omega (
            arith,
            settled.sound.size,
            popped_lt ql cl graph costs from backward closed s settled u p q' popped,
          )) in
        elim (Bool-cases (is_unreachable f e (found s u))) [
          | inl far ↦ (
            s.disutilities,
            rw (popped, search_loop) (rw read (rw far refl)),
            Settled-AreLeast s settled λ v held.
                cl.le_trans e.infinity (found s u) (found s v) cl.infinity_IsCost
                  (settled.sound.cost u) (settled.sound.cost v)
                  (unreachable-infinite (found s u) (settled.sound.cost u) far)
                  (popped-least ql cl graph costs from backward closed s settled u p q' popped v
                    held),
          )
          | inr near ↦
              let (t, eq, settled', len) =
                round-IsSettled ql cl graph costs from backward closed s settled u p q' popped
                  near in
              let (ds, run, least) = search_loop-AreLeast fuel t settled' (omega arith) in
              (ds, rw (popped, search_loop) (rw read (rw near (rw eq run))), least)
        ]
  ]

  start_cost-IsCost : (j : ℕ) → IsCost f e (start_cost e ql from j)
  start_cost-IsCost j = elim (Bool-cases (j == from)) [
    | inl same ↦ rw same cl.zero_IsCost
    | inr other ↦ rw other cl.infinity_IsCost
  ]

  module _ (s : Here) (filled : IsFilled e ql from graph.nodes_count s.queue s.disutilities) where
    filled-cost : (v : ℕ) → IsCost f e (found s v)
    filled-cost v = elim (Bool-cases (ltb v graph.nodes_count)) [
      | inl low ↦ rw (filled.costs v) (rw low (start_cost-IsCost v))
      | inr high ↦ rw (filled.costs v) (rw high cl.infinity_IsCost)
    ]

    filled-source : found s from ≡ zero_cost f
    filled-source = ground (arith, filled.costs from, closed.from_lt)

    filled-walk :
        (v : ℕ) → (found s v ≡ e.infinity) ⊎ Walk f graph costs from backward v (found s v)
    filled-walk v = elim (Bool-cases (v == from)) [
      | inl same ↦
          let at_v : from ≡ v = ground arith in
          inr (
            subst (λ k. Walk f graph costs from backward k (found s k)) at_v
              (subst (Walk f graph costs from backward from) (sym filled-source) here))
      | inr other ↦ inl (ground (arith, filled.costs v))
    ]

    filled-priority :
        (v : ℕ) (p : F)
        → ql.get_priority s.queue v ≡ some p
        → IsCost f e p × Le f p (found s v) × Le f (found s v) p
    filled-priority v p h =
        let same : p ≡ found s v = ground (arith, filled.priorities v, filled.costs v) in
        rw same (filled-cost v, cl.le_refl (found s v), cl.le_refl (found s v))

    held-lt : (v : ℕ) → c.occupied s.queue v ≡ ltb v graph.nodes_count
    held-lt v = ground (arith, filled.priorities v, ql.occupied_iff s.queue v)

    filled-IsSettled : Settled s
    filled-IsSettled = record {
      sound = record {
        size = filled.size;
        within = λ v h. ground (arith, held-lt v);
        cost = filled-cost;
        walk = filled-walk;
        priority = filled-priority;
      };
      source = rw filled-source (cl.le_refl (zero_cost f));
      order = λ u v u_lt free held. absurd (ground (arith, held-lt u));
      read = λ u i v w u_lt free edge. absurd (ground (arith, held-lt u));
    }

  start_state : Here
  start_state = record {
    queue = (get_initial_queue f e c graph.nodes_count from).0;
    disutilities = (get_initial_queue f e c graph.nodes_count from).1;
    options = tt;
  }

  a_star_core-landmark :
      a_star_core f e c (landmark_actions costs) (landmark_request graph from backward)
      ≡ search_loop f e c
          (landmark_actions costs)
          (landmark_request graph from backward)
          (suc graph.nodes_count)
          start_state
  unfolding a_star_core landmark_actions start_state
  a_star_core-landmark = refl

  -- On a graph whose edges can be read and cost no less than nothing, the search for landmarks ends without a panic,
  -- with one cost for each node: that of a walk from (backward: to) the node of the search, or infinity, and no walk
  -- costs less.
  pub disutilities_one_2_many-AreLeast :
      (ds : List F) × (disutilities_one_2_many f e c graph costs from backward ≡ some (ok ds))
      × AreLeast f e graph costs from backward ds
  unfolding disutilities_one_2_many start_state
  disutilities_one_2_many-AreLeast =
      let filled = get_initial_queue-IsFilled e ql from graph.nodes_count in
      let (ds, run, least) =
        search_loop-AreLeast (suc graph.nodes_count) start_state
          (filled-IsSettled start_state filled) (omega (arith, filled.len)) in
      (ds, rw (a_star_core-landmark ∙ run, disutilities_one_2_many) refl, least)
