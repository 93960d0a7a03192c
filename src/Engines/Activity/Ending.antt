-- ===== src/Engines/Activity/Ending.antt =====
-- rust_qsim/src/simulation/engines/activity_engine.rs: agents that wake up and end their activity.
use parallel_qsim_rust.Prelude.{
  ℕ, zero, suc, ◌+◌, ◌≤◌, ◌<◌, ◌≡◌, refl, Bool, leb, some, List, [], ◌∷◌, ◌++◌, append-nil, length,
  All, All-append, count_if, count_if-append, arith, inl, inr, Bool-cases,
}
use parallel_qsim_rust.Time.{SimTime}
use parallel_qsim_rust.Agents.{woke_up}
use parallel_qsim_rust.Engines.Activity.{
  SimulationAgentLogic, ActivityEvent, activity_end, AsleepSimulationAgent, AwakeSimulationAgent,
  awake_end, sort_woken, notify_all, notify_awake, end_loop, notify_end_all, fill_gap,
}
use parallel_qsim_rust.Engines.Activity.Queues.{fill_gap-count, fill_gap-length, fill_gap-All}
use parallel_qsim_rust.Engines.Activity.Responses.{AreResponsive, agents_by, awake_by}

module _ (F : Type 0) {A : Type 0} ⦃l : SimulationAgentLogic F A⦄ (Arriving Staying : A → Type 0)
    (now : SimTime) (r : AreResponsive F Arriving Staying now) where
  abbrev pub AllAwake : List (AwakeSimulationAgent A) → Type 0
  AllAwake ws = All (λ w. Staying w.agent) ws

  pub sort_woken_total :
      (xs : List (AsleepSimulationAgent A))
      → All (λ x. Staying x.agent) xs
      → (ends : List A) × (awake : List (AwakeSimulationAgent A)) × (sort_woken F now xs
          ≡ some (ends, awake))
        × All Staying ends
        × AllAwake awake
        × ((p : ℕ → Bool)
            → agents_by F p ends + awake_by F p awake ≡ count_if (λ x. p (l.id x.agent)) xs)
  unfolding sort_woken
  sort_woken_total [] _ = ([], [], refl, tt, tt, λ p. omega arith)
  sort_woken_total (x ∷ xs) (h, hs) =
      let (t, ending) = r.ends x.agent x.begin_time h in
      let (ends, awake, done, all, all', counts) = sort_woken_total xs hs in
      let w : AwakeSimulationAgent A = record { agent = x.agent; begin_time = x.begin_time } in
      elim (Bool-cases (leb t now)) [
        | inl is_due ↦ (
          x.agent ∷ ends,
          awake,
          rw ending (rw done (rw is_due refl)),
          (h, all),
          all',
          λ p. ground (arith, counts p),
        )
        | inr is_later ↦ (
          ends,
          w ∷ awake,
          rw ending (rw done (rw is_later refl)),
          all,
          (h, all'),
          λ p. ground (arith, counts p),
        )
      ]

  pub notify_woken_total :
      (xs : List A)
      → All Staying xs
      → (bs : List A) × (notify_all F (woke_up now) now xs ≡ some bs)
        × All Staying bs
        × ((p : ℕ → Bool) → agents_by F p bs ≡ agents_by F p xs)
  unfolding notify_all
  notify_woken_total [] _ = ([], refl, tt, λ p. refl)
  notify_woken_total (a ∷ xs) (h, hs) =
      let (a', told, stays, same) = r.woken a now h in
      let (bs, done, all, counts) = notify_woken_total xs hs in
      (a' ∷ bs, rw told (rw done refl), (stays, all), λ p. ground (arith, counts p, same))

  pub notify_awake_total :
      (ws : List (AwakeSimulationAgent A))
      → AllAwake ws
      → (vs : List (AwakeSimulationAgent A)) × (notify_awake F now ws ≡ some vs)
        × AllAwake vs
        × ((p : ℕ → Bool) → awake_by F p vs ≡ awake_by F p ws)
  unfolding notify_awake
  notify_awake_total [] _ = ([], refl, tt, λ p. refl)
  notify_awake_total (w ∷ ws) (h, hs) =
      let (t, ending) = r.ends w.agent w.begin_time h in
      let (a', told, stays, same) = r.woken w.agent t h in
      let (vs, done, all, counts) = notify_awake_total ws hs in
      (
        record w { agent = a' } ∷ vs,
        rw ending (rw told (rw done refl)),
        (stays, all),
        λ p. ground (arith, counts p, same),
      )

  -- The agent ends its activity later.
  abbrev pub IsLater : AwakeSimulationAgent A → Type 0
  IsLater w = (t : SimTime) × (awake_end F w ≡ some t) × (now < t)

  pub end_loop_total :
      (n : ℕ) (passed rest : List (AwakeSimulationAgent A))
      → length rest ≤ n
      → AllAwake passed
      → AllAwake rest
      → All IsLater passed
      → (ends : List A) × (awake : List (AwakeSimulationAgent A)) × (end_loop F n now passed rest
          ≡ some (ends, awake))
        × All Staying ends
        × AllAwake awake
        × All IsLater awake
        × ((p : ℕ → Bool)
            → agents_by F p ends + awake_by F p awake ≡ awake_by F p passed + awake_by F p rest)
  unfolding end_loop
  end_loop_total zero passed [] enough hp hr later =
      ([], passed, simp append-nil refl, tt, hp, later, λ p. omega arith)
  end_loop_total zero passed (w ∷ ws) enough hp hr later = absurd (omega arith)
  end_loop_total (suc n) passed [] enough hp hr later =
      ([], passed, refl, tt, hp, later, λ p. omega arith)
  end_loop_total (suc n) passed (w ∷ ws) enough hp (h, hr) later =
      let (t, ending) = r.ends w.agent w.begin_time h in
      elim (Bool-cases (leb t now)) [
        | inl is_due ↦
            let (ends, awake, done, all, all', later', counts) =
              end_loop_total n passed (fill_gap ws) (omega (arith, enough, fill_gap-length ws)) hp
                (fill_gap-All (λ v. Staying v.agent) ws hr) later in
            (
              w.agent ∷ ends,
              awake,
              rw ending (rw done (rw is_due refl)),
              (h, all),
              all',
              later',
              λ p. ground (
                arith,
                counts p,
                fill_gap-count (λ (v : AwakeSimulationAgent A). p (l.id v.agent)) ws,
              ),
            )
        | inr is_later ↦
            let (ends, awake, done, all, all', later', counts) =
              end_loop_total n (passed ++ w ∷ []) ws (omega (arith, enough))
                (All-append (λ v. Staying v.agent) passed (w ∷ []) hp (h, tt)) hr
                (All-append IsLater passed (w ∷ []) later
                  ((t, ending, ground (arith, is_later)), tt)) in
            (
              ends,
              awake,
              rw ending (rw is_later done),
              all,
              all',
              later',
              λ p. ground (
                arith,
                counts p,
                count_if-append (λ (v : AwakeSimulationAgent A). p (l.id v.agent)) passed (w ∷ []),
              ),
            )
      ]

  pub notify_end_all_total :
      (xs : List A)
      → All Staying xs
      → (bs : List A) × (events : List (ActivityEvent F)) × (notify_end_all F now xs
          ≡ some (bs, events))
        × All Staying bs
        × ((p : ℕ → Bool) → agents_by F p bs ≡ agents_by F p xs)
  unfolding notify_end_all
  notify_end_all_total [] _ = ([], [], refl, tt, λ p. refl)
  notify_end_all_total (a ∷ xs) (h, hs) =
      let (act, c, found, at) = r.acts a h in
      let (a', told, stays, same) = r.finishes a h in
      let (bs, events, done, all, counts) = notify_end_all_total xs hs in
      (
        a' ∷ bs,
        activity_end now (l.id a) act.link_id c act.act_type ∷ events,
        rw found (rw at (rw told (rw done refl))),
        (stays, all),
        λ p. ground (arith, counts p, same),
      )
