-- ===== src/Agents/Route.antt =====
-- rust_qsim/src/simulation/agents/agent_logic.rs: how a driver follows the links of a route.
use parallel_qsim_rust.Prelude.{
  ℕ, zero, suc, ◌≤◌, ◌<◌, ◌≡◌, refl, sym, ap, subst, ◌∙◌, if◌then◌else◌, Option, none, some, ◌>>=◌,
  List, [], ◌∷◌, ◌++◌, append_assoc, length, length-append, get_elem?, arith, u64_mod, wrapping_add,
  wrapping_sub,
}
use parallel_qsim_rust.Time.{SimTime}
use parallel_qsim_rust.Population.{
  InternalGenericRoute, InternalRoute, generic, network, pt, InternalLeg,
}
use parallel_qsim_rust.Agents.{
  PlanBasedSimulationLogic, left_link, in_leg, state, curr_leg, curr_link_id, link_at,
  peek_next_link_id, is_wanting_to_arrive_on_current_link, notify_event, is_none, last_element,
  teleportation_started, set_curr_route_element_to_last,
}

abbrev first : List ℕ → Option ℕ
first [] = none
first (x ∷ xs) = some x

abbrev pub last : List ℕ → Option ℕ
last [] = none
last (x ∷ []) = some x
last (x ∷ y ∷ xs) = last (y ∷ xs)

get_elem?-split :
    (before : List ℕ) (x : ℕ) (after : List ℕ)
    → get_elem? (before ++ x ∷ after) (length before) ≡ some x
get_elem?-split [] x after = refl
get_elem?-split (y ∷ before) x after = get_elem?-split before x after

get_elem?-next :
    (before : List ℕ) (x : ℕ) (after : List ℕ)
    → get_elem? (before ++ x ∷ after) (suc (length before)) ≡ first after
get_elem?-next [] x [] = refl
get_elem?-next [] x (y ∷ after) = refl
get_elem?-next (y ∷ before) x after = get_elem?-next before x after

get_elem?-last : (x : ℕ) (xs : List ℕ) → get_elem? (x ∷ xs) (length xs) ≡ last (x ∷ xs)
get_elem?-last x [] = refl
get_elem?-last x (y ∷ xs) = get_elem?-last y xs

module _ {F : Type 0} where
  -- The links on which a driver is until it wants to arrive; it is told of each link that it leaves.
  unfoldable pub drive : ℕ → PlanBasedSimulationLogic F → Option (List ℕ)
  drive zero a = none
  drive (suc n) a = do
    here ← curr_link_id a
    link ← here
    arrives ← is_wanting_to_arrive_on_current_link a
    a' ← notify_event left_link 0 a
    let rest = drive n a' >>= (λ links. some (link ∷ links))
    (if arrives then some (link ∷ []) else rest)

  -- The agent is on the leg `l` with the route `r`.
  pub record IsOnLeg (a : PlanBasedSimulationLogic F) (l : InternalLeg F) (r : InternalRoute F)
      : Type 0 where
    pub on_leg : state a ≡ in_leg
    pub leg : curr_leg a ≡ some l
    pub route : l.route ≡ some r

  abbrev pub at_position : ℕ → PlanBasedSimulationLogic F → PlanBasedSimulationLogic F
  at_position i a = record a { curr_route_element = i }

  moved-IsOnLeg :
      (a : PlanBasedSimulationLogic F) (l : InternalLeg F) (r : InternalRoute F) (i : ℕ)
      → IsOnLeg a l r
      → IsOnLeg (at_position i a) l r
  unfolding state curr_leg
  moved-IsOnLeg a l r i h = record { on_leg = h.on_leg; leg = h.leg; route = h.route }

  link_here :
      (a : PlanBasedSimulationLogic F) (l : InternalLeg F) (r : InternalRoute F)
      → IsOnLeg a l r
      → curr_link_id a ≡ link_at r a.curr_route_element
  unfolding curr_link_id
  link_here a l r h = ground (arith, h.on_leg, h.leg, h.route)

  wants_at :
      (a : PlanBasedSimulationLogic F) (l : InternalLeg F) (g : InternalGenericRoute F)
      (route : List ℕ)
      → IsOnLeg a l (network g route)
      → is_wanting_to_arrive_on_current_link a
        ≡ some (is_none (get_elem? route (wrapping_add a.curr_route_element 1)))
  unfolding is_wanting_to_arrive_on_current_link peek_next_link_id
  wants_at a l g route h = ground (arith, h.leg, h.route)

  module _ (before : List ℕ) (x : ℕ) (after : List ℕ) (a : PlanBasedSimulationLogic F)
      (l : InternalLeg F) (g : InternalGenericRoute F)
      (h : IsOnLeg a l (network g (before ++ x ∷ after)))
      (pos : a.curr_route_element ≡ length before)
      (fits : length (before ++ x ∷ after) < u64_mod) where
    step : wrapping_add a.curr_route_element 1 ≡ suc (length before)
    step = omega (arith, pos, fits, length-append before (x ∷ after))

    here : curr_link_id a ≡ some (some x)
    unfolding link_at
    here =
        link_here a l (network g (before ++ x ∷ after)) h
        ∙ ap (λ i. some (get_elem? (before ++ x ∷ after) i)) pos
        ∙ ap some (get_elem?-split before x after)

    wants : is_wanting_to_arrive_on_current_link a ≡ some (is_none (first after))
    wants =
        wants_at a l g (before ++ x ∷ after) h
        ∙ ap (λ i. some (is_none (get_elem? (before ++ x ∷ after) i))) step
        ∙ ap (λ o. some (is_none o)) (get_elem?-next before x after)

  drive_from :
      (n : ℕ) (before : List ℕ) (x : ℕ) (after : List ℕ) (a : PlanBasedSimulationLogic F)
      (l : InternalLeg F) (g : InternalGenericRoute F)
      → IsOnLeg a l (network g (before ++ x ∷ after))
      → a.curr_route_element ≡ length before
      → length (before ++ x ∷ after) < u64_mod
      → length (x ∷ after) ≤ n
      → drive n a ≡ some (x ∷ after)
  unfolding drive notify_event
  drive_from zero before x after a l g h pos fits enough = absurd (omega arith)
  drive_from (suc n) before x [] a l g h pos fits enough =
      ground (arith, here before x [] a l g h pos fits, wants before x [] a l g h pos fits)
  drive_from (suc n) before x (y ∷ after) a l g h pos fits enough =
      let i = wrapping_add a.curr_route_element 1 in
      let same : (before ++ x ∷ []) ++ y ∷ after ≡ before ++ x ∷ y ∷ after =
        append_assoc before (x ∷ []) (y ∷ after) in
      let rest =
        drive_from n (before ++ x ∷ []) y after (at_position i a) l g
          (subst (λ r. IsOnLeg (at_position i a) l (network g r)) (sym same)
            (moved-IsOnLeg a l (network g (before ++ x ∷ y ∷ after)) i h))
          (omega (arith, step before x (y ∷ after) a l g h pos fits, length-append before (x ∷ [])))
          (rw same fits) (omega (arith, enough)) in
      ground (
        arith,
        here before x (y ∷ after) a l g h pos fits,
        wants before x (y ∷ after) a l g h pos fits,
        rest,
      )

  -- A driver at the start of a network route of fewer than 2^64 links, at least one, is on exactly the links of
  -- the route, in their order, and wants to arrive on the last one and on none before.
  pub drive-route :
      (n : ℕ) (x : ℕ) (xs : List ℕ) (a : PlanBasedSimulationLogic F) (l : InternalLeg F)
      (g : InternalGenericRoute F)
      → IsOnLeg a l (network g (x ∷ xs))
      → a.curr_route_element ≡ 0
      → length (x ∷ xs) < u64_mod
      → length (x ∷ xs) ≤ n
      → drive n a ≡ some (x ∷ xs)
  drive-route n x xs a l g h pos fits enough = drive_from n [] x xs a l g h pos fits enough

  -- Where a route ends.
  unfoldable pub destination : InternalRoute F → Option ℕ
  destination (generic g) = some g.end_link
  destination (network g route) = last route
  destination (pt g line route) = some g.end_link

  abbrev pub links_of : InternalRoute F → List ℕ
  links_of (generic g) = []
  links_of (network g route) = route
  links_of (pt g line route) = []

  last_link :
      (r : InternalRoute F)
      → length (links_of r) < u64_mod
      → link_at r (last_element r) ≡ some (destination r)
  unfolding link_at destination
  last_link (generic g) _ = refl
  last_link (network g []) _ = refl
  last_link (network g (x ∷ xs)) fits =
      let back : wrapping_sub (suc (length xs)) 1 ≡ length xs = omega (arith, fits) in
      ap (λ i. some (get_elem? (x ∷ xs) i)) back ∙ ap some (get_elem?-last x xs)
  last_link (pt g line route) _ = refl

  -- An agent on a leg whose route is of any kind, with fewer than 2^64 links, is told that it is teleported: then its current link is
  -- the end of the route, which for a network route is the last of its links.
  pub teleportation_started-destination :
      (now : SimTime) (a : PlanBasedSimulationLogic F) (l : InternalLeg F) (r : InternalRoute F)
      → IsOnLeg a l r
      → length (links_of r) < u64_mod
      → (a' : PlanBasedSimulationLogic F) × (notify_event teleportation_started now a ≡ some a')
        × (curr_link_id a' ≡ some (destination r))
  unfolding notify_event set_curr_route_element_to_last
  teleportation_started-destination now a l r h fits =
      let there = moved-IsOnLeg a l r (last_element r) h in
      (
        at_position (last_element r) a,
        ground (arith, h.leg, h.route),
        link_here (at_position (last_element r) a) l r there ∙ last_link r fits,
      )
