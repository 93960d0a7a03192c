-- ===== src/Network/Tests/LinkRuns.antt =====
-- Runs of links under rust_qsim/src/simulation/network/.
use parallel_qsim_rust.Prelude.{
  ℕ, ◌+◌, ◌-◌, ltb, List, ◌≤◌, ◌≡◌, ◌≢◌, refl, true, false, ◌↔◌, ◌⊎◌, none, some, [], ◌∷◌, ◌++◌,
  SameItems, arith,
}
use parallel_qsim_rust.Time.{tick_to_time}
use parallel_qsim_rust.Network.Capacity.{new_flowcap, update_capacity, update_capacity_twice}
use parallel_qsim_rust.Network.Capacity.History.{
  FlowCall, updates, uses, CapLaws, IsCapped, run_flow, run_flow-IsCapped,
}
use parallel_qsim_rust.Network.Link.Serving.{serve, IsServed, serve-IsServed}
use parallel_qsim_rust.Network.StuckTimer
use parallel_qsim_rust.Network.StuckTimer.{is_stuck-start, is_stuck-reset}
use parallel_qsim_rust.Network.LinkState.{q_start}
use parallel_qsim_rust.Network.Link.{SimStep, do_sim_step, is_active}
use parallel_qsim_rust.Network.Link.Step.{
  StepRun, on_link, do_sim_step-StepRun, do_sim_step-SameItems,
}
use parallel_qsim_rust.Network.Link.Split
use parallel_qsim_rust.Network.Link.Split.{SimLink, local, inward, out}
use parallel_qsim_rust.Network.Link.Laws.{
  on_sim_link, refuses, push_veh-SameItems, drain-SameItems, is_active-ne-nil,
}
use parallel_qsim_rust.Network.Tests.{whole_numbers, cars, Car, busy, offering, arriving, seconds}

start_time : tick_to_time seconds 3 ≡ some 3_000_000_000
unfolding tick_to_time
start_time = refl

do_sim_step-StepRun_example :
    (s : SimStep ℕ Car) × (do_sim_step 3 busy ≡ some s) × StepRun 3 3_000_000_000 busy s
do_sim_step-StepRun_example = do_sim_step-StepRun 3 busy start_time

do_sim_step-SameItems_example :
    (s : SimStep ℕ Car) × (do_sim_step 3 busy ≡ some s)
    × SameItems (s.ending_vehicles ++ on_link s.link) (on_link busy)
do_sim_step-SameItems_example = do_sim_step-SameItems 3 busy start_time

push_veh-SameItems_example :
    ((refuses (local busy) q_start ≡ true)
      × (Split.push_veh arriving q_start 3 (local busy) ≡ none))
    ⊎ ((k' : SimLink ℕ Car) × (refuses (local busy) q_start ≡ false)
        × (Split.push_veh arriving q_start 3 (local busy) ≡ some k')
        × SameItems (on_sim_link k') (arriving ∷ on_sim_link (local busy))
        × (Split.id k' ≡ Split.id (local busy)))
push_veh-SameItems_example = push_veh-SameItems arriving q_start 3 (local busy)

serve-IsServed_example : IsServed 2 offering (serve 2 3 offering)
serve-IsServed_example = serve-IsServed 2 3 offering

drain-SameItems_example :
    SameItems (Split.drain (local busy)).0 (on_sim_link (local busy))
    × (on_sim_link (Split.drain (local busy)).1 ≡ [])
drain-SameItems_example = drain-SameItems (local busy)

is_active-ne-nil_example : (is_active busy ≡ true) ↔ (on_link busy ≢ [])
is_active-ne-nil_example = is_active-ne-nil busy

is_stuck-start_example :
    (StuckTimer.is_stuck 40
        (StuckTimer.start 20 (StuckTimer.start 5 (StuckTimer.reset busy.stuck_timer)))
      ≡ true)
    ↔ (5 + 30 ≤ 40)
is_stuck-start_example = is_stuck-start busy.stuck_timer 5 20 40 (omega arith) (omega arith)

irreflexive : (a : ℕ) → ltb a a ≡ false
irreflexive a = ground arith

min_law : (a b : ℕ) → whole_numbers.lt b (whole_numbers.fmin a b) ≡ false
min_law a b = ground arith

sub_law : (a by top : ℕ) → ltb top a ≡ false → ltb by 0 ≡ false → ltb top (a - by) ≡ false
sub_law a by top p q = ground arith

abbrev cap_laws : CapLaws ℕ
cap_laws = record { lt_irrefl = irreflexive; min_le = min_law; sub_le = sub_law }

abbrev calls : List (FlowCall ℕ)
calls = uses 1 ∷ updates 9_000_000_000 ∷ updates 4_000_000_000 ∷ uses 2 ∷ []

run_flow-IsCapped_example : IsCapped 5 9_000_000_000 (run_flow calls (new_flowcap 3_600 1 5))
run_flow-IsCapped_example = run_flow-IsCapped cap_laws calls 3_600 1 5 (refl, (refl, tt))

update_capacity_twice_example :
    update_capacity 8_000_000_000 (update_capacity 9_000_000_000 busy.flow_cap)
    ≡ update_capacity 9_000_000_000 busy.flow_cap
update_capacity_twice_example =
    update_capacity_twice 9_000_000_000 8_000_000_000 busy.flow_cap (omega arith)
