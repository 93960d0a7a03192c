-- ===== src/Network/SimNetwork/Conserve.antt =====
-- rust_qsim/src/simulation/network/sim_network.rs: the moves of the links keep the vehicles of a partition.
use mathlib.Core.Option.{some-injective}
use parallel_qsim_rust.Prelude.{
  ℕ, ◌≡◌, refl, sym, ap, ◌∙◌, Bool, false, not, ◌||◌, some, List, [], ◌∷◌, ◌++◌, append-nil,
  SameItems, arith, inl, inr, Option-cases,
}
use parallel_qsim_rust.Time.{Tick}
use parallel_qsim_rust.Float.{F64, Vehicle}
use parallel_qsim_rust.Network.LinkState.{LocalLink, VehicleQEntry}
use parallel_qsim_rust.Network.Link
use parallel_qsim_rust.Network.Link.{SimStep}
use parallel_qsim_rust.Network.Link.Step.{on_link, do_sim_step_inv, StepRun-SameItems}
use parallel_qsim_rust.Network.Link.Moves.{vehicles}
use parallel_qsim_rust.Network.Link.Split
use parallel_qsim_rust.Network.Link.Split.{SimLink, local, inward, out}
use parallel_qsim_rust.Network.Link.Laws.{on_sim_link}
use parallel_qsim_rust.Network.SimNetwork.{Moved, move_local_link, move_link}

no_parts :
    {V : Type 0} (q : List (VehicleQEntry V)) (w b : List V)
    → (not (Link.is_empty q) || not (Link.is_empty w) || not (Link.is_empty b)) ≡ false
    → w ++ (vehicles q ++ b) ≡ []
no_parts [] [] [] h = refl
no_parts [] [] (x ∷ b) h = cc
no_parts [] (y ∷ w) b h = cc
no_parts (e ∷ q) w b h = cc

module _ {F V : Type 0} ⦃f : F64 F⦄ ⦃v : Vehicle F V⦄ where
  step_keeps :
      (now : Tick) (l : LocalLink F V) (s : SimStep F V)
      → Link.do_sim_step now l ≡ some s
      → SameItems (s.ending_vehicles ++ on_link s.link) (on_link l) × (s.link.id ≡ l.id)
  step_keeps now l s e =
      let (time, run) = do_sim_step_inv now l s e in
      (StepRun-SameItems now time l s run, ap (λ k. k.id) run.frame)

  offer_keeps :
      (now : Tick) (b : List V) (l : LocalLink F V)
      → let l' = (Link.offer now b l).1 in (on_link l' ≡ on_link l) × (l'.id ≡ l.id)
  offer_keeps now [] l = (refl, refl)
  offer_keeps now (x ∷ b) l = ground arith

  to_nodes_keeps :
      (now : Tick) (l : LocalLink F V)
      → let l' = (Link.to_nodes_active now l).1 in (on_link l' ≡ on_link l) × (l'.id ≡ l.id)
  unfolding Link.to_nodes_active
  to_nodes_keeps now l = offer_keeps _ l.buffer l

  move_local_keeps :
      (now : Tick) (nodes : List ℕ) (l : LocalLink F V) (s : SimStep F V) (nodes' : List ℕ)
      (active : Bool)
      → move_local_link now nodes l ≡ some (s, nodes', active)
      → SameItems (s.ending_vehicles ++ on_link s.link) (on_link l)
        × (s.link.id ≡ l.id)
        × (active ≡ Link.is_active s.link)
  unfolding move_local_link
  move_local_keeps now nodes l s nodes' active e = elim (Option-cases (Link.do_sim_step now l)) [
    | inl failed ↦ ground (arith, failed)
    | inr (s₀, done) ↦
        let (same, id₀) = step_keeps now l s₀ done in
        let (on, id₁) = to_nodes_keeps now s₀.link in
        let ends : s.ending_vehicles ≡ s₀.ending_vehicles = ground (arith, done) in
        let link : s.link ≡ (Link.to_nodes_active now s₀.link).1 = ground (arith, done) in
        let flag : active ≡ Link.is_active (Link.to_nodes_active now s₀.link).1 =
          ground (arith, done) in
        (rw (ends, link, on) same, ap (λ k. k.id) link ∙ id₁ ∙ id₀, rw link flag)
  ]

  pub active_parts : (l : LocalLink F V) → Link.is_active l ≡ false → on_link l ≡ []
  unfolding Link.is_active
  active_parts l h = no_parts l.q l.waiting_list l.buffer h

  -- A moved link keeps its identity. Its vehicles stay, end their leg or leave the partition, and a link
  -- that is no longer active has none left.
  pub move_link_keeps :
      (now : Tick) (nodes : List ℕ) (k : SimLink F V) (m : Moved F V)
      → move_link now nodes k ≡ some m
      → SameItems (m.ends ++ (m.exits ++ on_sim_link m.link)) (on_sim_link k)
        × (Split.id m.link ≡ Split.id k)
        × (m.is_active ≡ false → on_sim_link m.link ≡ [])
  unfolding move_link on_sim_link Split.id Split.take_veh
  move_link_keeps now nodes (local l) m e = elim (Option-cases (move_local_link now nodes l)) [
    | inl failed ↦ ground (arith, failed)
    | inr ((s, nodes', active), done) ↦
        let (same, id, flag) = move_local_keeps now nodes l s nodes' active done in
        let m-eq : m ≡ record {
          link = local s.link;
          active_nodes = nodes';
          is_active = active;
          exits = [];
          ends = s.ending_vehicles;
          updates = [];
          events = s.events;
        } =
          ground (arith, done) in
        rw m-eq (same, id, λ h. active_parts s.link (sym flag ∙ h))
  ]
  move_link_keeps now nodes (inward i) m e =
      elim (Option-cases (move_local_link now nodes i.local_link)) [
        | inl failed ↦ ground (arith, failed)
        | inr ((s, nodes', active), done) ↦
            let (same, id, flag) = move_local_keeps now nodes i.local_link s nodes' active done in
            let ends : m.ends ≡ s.ending_vehicles = ground (arith, done) in
            let exits : m.exits ≡ [] = ground (arith, done) in
            let link : m.link ≡ Split.set_local i s.link = ground (arith, done) in
            let still : m.is_active ≡ active = ground (arith, done) in
            (
              rw (ends, exits, link) same,
              rw link id,
              λ h. rw link (active_parts s.link (sym flag ∙ sym still ∙ h)),
            )
      ]
  move_link_keeps now nodes (out o) m e =
      let made = some-injective _ _ (sym e) in rw made (λ p. simp append-nil refl, refl, λ h. refl)
