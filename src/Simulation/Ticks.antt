-- ===== src/Simulation/Ticks.antt =====
-- simulation.rs: which ticks the loop runs.
use parallel_qsim_rust.Prelude.{
  ℕ, zero, suc, ◌+◌, ◌-◌, ◌<◌, ◌≡◌, ◌∙◌, refl, ap, Bool-cases, leb, inl, inr, u64_max, arith,
}
use parallel_qsim_rust.Time.{Tick, tick_next}
use parallel_qsim_rust.Float.{F64, Vehicle}
use parallel_qsim_rust.Network.Nodes.{Rng, Run, ok, panics, out_of_fuel, and_then}
use parallel_qsim_rust.Engines.Activity.{SimulationAgentLogic}
use parallel_qsim_rust.Engines.Network.{Passengers}
use parallel_qsim_rust.Engines.Teleportation.{Teleported, IdStore}
use parallel_qsim_rust.Engines.Leg.Departure.{LegAgent, LegVehicle}
use parallel_qsim_rust.Simulation.{Simulation, World, Progress, moved, waiting, tick, run_loop}

tick_next-suc : (now : Tick) → now < u64_max → tick_next now ≡ suc now
unfolding tick_next
tick_next-suc now h = omega arith

module _ {F A V R : Type 0} ⦃f : F64 F⦄ ⦃v : Vehicle F V⦄ ⦃r : Rng F R⦄ ⦃t : Teleported F V⦄
    ⦃ps : Passengers V⦄ ⦃ids : IdStore⦄ ⦃l : LegAgent F A⦄ ⦃w : LegVehicle F A V⦄
    ⦃a : SimulationAgentLogic F A⦄ (sim : Simulation F V) (fuel : ℕ) where
  -- `n` ticks one behind the other, from `now` on; a panic, a wait or the end of the nodes' fuel ends them.
  pub ticks : ℕ → Tick → World F A V R → Run (Progress F A V R)
  ticks zero now s = ok (moved s)
  ticks (suc n) now s =
      and_then (tick sim fuel now s)
        λ done. elim done [ waiting ↦ ok waiting | moved s' ↦ ticks n (suc now) s' ]

  continue :
      (step : Run (Progress F A V R)) (k k' : World F A V R → Run (Progress F A V R))
      → ((s : World F A V R) → k s ≡ k' s)
      → and_then step (λ done. elim done [ waiting ↦ ok waiting | moved s ↦ k s ])
        ≡ and_then step (λ done. elim done [ waiting ↦ ok waiting | moved s ↦ k' s ])
  continue (ok waiting) k k' h = refl
  continue (ok (moved s)) k k' h = h s
  continue panics k k' h = refl
  continue out_of_fuel k k' h = refl

  -- With an end before the greatest tick, and with a round for each tick and one more, the loop from `now` runs the ticks
  -- from `now` to the end, each once and in their order, and no other: none where the end lies before `now`.
  pub run_loop-ticks :
      (rounds : ℕ) (now : Tick) (s : World F A V R)
      → sim.end_tick < u64_max
      → sim.end_tick + 1 - now < rounds
      → run_loop sim rounds fuel now s ≡ ticks (sim.end_tick + 1 - now) now s
  unfolding run_loop ticks
  run_loop-ticks zero now s h k = absurd (omega arith)
  run_loop-ticks (suc rounds) now s h k = elim (Bool-cases (leb now sim.end_tick)) [
    | inl before ↦
        let one_more : sim.end_tick + 1 - now ≡ suc (sim.end_tick - now) = ground arith in
        let next : tick_next now ≡ suc now = tick_next-suc now (ground arith) in
        let left : sim.end_tick + 1 - suc now ≡ sim.end_tick - now = omega arith in
        rw one_more (
          rw (before, run_loop)
            (continue (tick sim fuel now s) (run_loop sim rounds fuel (tick_next now))
              (ticks (sim.end_tick - now) (suc now))
              λ s'. rw next (
                run_loop-ticks rounds (suc now) s' h (omega arith)
                ∙ ap (λ (n : ℕ). ticks n (suc now) s') left)))
    | inr after ↦
        let none_left : sim.end_tick + 1 - now ≡ 0 = ground arith in
        rw none_left (rw (after, run_loop) refl)
  ]
