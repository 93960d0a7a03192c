-- ===== src/Engines/Tests/ActivityRuns.antt =====
-- Runs of rust_qsim/src/simulation/engines/activity_engine.rs: somebody arrives at work.
use parallel_qsim_rust.Prelude.{ℕ, zero, suc, ◌≡◌, refl, some, List, [], ◌∷◌, arith, u64_max}
use parallel_qsim_rust.Time.{SimTime, SimClock, tick_to_time}
use parallel_qsim_rust.TimeQueue.Refinement.{sort}
use parallel_qsim_rust.Population.{selected_plan, cmp_end_time}
use parallel_qsim_rust.Agents.{PlanBasedSimulationLogic}
use parallel_qsim_rust.Agents.Plan.{IsValid, HasEnds}
use parallel_qsim_rust.Agents.Tests.{plan, under_way, plan-IsAlternating}
use parallel_qsim_rust.Engines.Activity.{ActivityEngine, ActivityEvent, do_step}
use parallel_qsim_rust.Engines.Activity.Responses.{AreResponsive}
use parallel_qsim_rust.Engines.Activity.Step.{IsSettled, IsStepped, do_step-IsStepped}
use parallel_qsim_rust.Engines.Activity.PlanBased.{
  plan_based, IsLocated, IsArriving, IsStaying, plan_based-AreResponsive,
}

abbrev seconds : SimClock
seconds = record { ticks_per_second = 1 }

abbrev nobody : ActivityEngine (PlanBasedSimulationLogic ℕ)
nobody = record { asleep_q = record { q = []; counter = 0 }; awake_q = []; clock = seconds }

abbrev three : SimTime
three = 3_000_000_000

tick_three : tick_to_time seconds 3 ≡ some three
unfolding tick_to_time
tick_three = refl

under_way-IsValid : IsValid under_way plan
unfolding selected_plan
under_way-IsValid = record {
  selected = refl;
  short = omega arith;
  alternating = plan-IsAlternating;
  within = omega arith;
  timed = refl;
}

plan-IsLocated : IsLocated plan
plan-IsLocated zero act h = (record { x = 0; y = 0; z = 0 }, ground (arith, h))
plan-IsLocated (suc zero) act h = cc
plan-IsLocated (suc (suc zero)) act h = (record { x = 0; y = 0; z = 0 }, ground (arith, h))
plan-IsLocated (suc (suc (suc i))) act h = cc

plan-HasEnds : HasEnds three plan
unfolding cmp_end_time
plan-HasEnds zero act h = (100, ground (arith, h))
plan-HasEnds (suc zero) act h = cc
plan-HasEnds (suc (suc zero)) act h = (u64_max, ground (arith, h))
plan-HasEnds (suc (suc (suc i))) act h = cc

under_way-IsArriving : IsArriving three under_way
under_way-IsArriving = (plan, under_way-IsValid, plan-IsLocated, plan-HasEnds, refl, omega arith)

abbrev Arrives : PlanBasedSimulationLogic ℕ → Type 0
Arrives = IsArriving {F = ℕ} three

abbrev Stays : PlanBasedSimulationLogic ℕ → Type 0
Stays = IsStaying {F = ℕ}

abbrev answers : AreResponsive ℕ Arrives Stays three
answers = plan_based-AreResponsive {F = ℕ} three

nobody-IsSettled : IsSettled ℕ Arrives Stays three answers nobody
unfolding sort
nobody-IsSettled = record { asleep = (tt, tt); awake = tt }

plan_based-AreResponsive_example : AreResponsive ℕ Arrives Stays three
plan_based-AreResponsive_example = plan_based-AreResponsive {F = ℕ} three

do_step-IsStepped_example :
    (out : List (PlanBasedSimulationLogic ℕ)) × (e' : ActivityEngine (PlanBasedSimulationLogic ℕ))
    × (events : List (ActivityEvent ℕ)) × (do_step ℕ 3 (under_way ∷ []) nobody
        ≡ some (out, e', events))
    × IsStepped ℕ Arrives Stays three answers (under_way ∷ []) nobody out e'
do_step-IsStepped_example =
    do_step-IsStepped ℕ Arrives Stays three answers 3 (under_way ∷ []) nobody tick_three
      (under_way-IsArriving, tt) nobody-IsSettled (omega arith)
