-- ===== src/Messaging/Tests.antt =====
-- Exchanges of rust_qsim/src/simulation/messaging/ on small inputs.
use parallel_qsim_rust.Prelude.{
  ℕ, ◌≡◌, refl, ◌==◌, ◌++◌, if◌then◌else◌, true, false, some, List, [], ◌∷◌, arith,
}
use parallel_qsim_rust.Prelude.Maps.{get, contains}
use parallel_qsim_rust.Network.Tests.{whole_numbers, cars, Car, passing}
use parallel_qsim_rust.Messaging.Messages
use parallel_qsim_rust.Messaging.Messages.{SyncMessage, SimMessage, sync}
use parallel_qsim_rust.Messaging.Broker.{
  NetMessageBroker, Inbox, Senders, done, add_veh, rank_for_link, send_recv, fill, or_insert,
  to_receive, pop_from_cache, heap_pop,
}
use parallel_qsim_rust.Messaging.Receiving.{answers}
use parallel_qsim_rust.Messaging.Outbox.{vehicles_for, add_veh-vehicles_for, fill-get}
use parallel_qsim_rust.Messaging.Exchange.{IsExchanged, send_recv-IsExchanged}

abbrev message : ℕ → ℕ → SyncMessage ℕ Car
message time k = record {
  time = time;
  from_process = k;
  to_process = 0;
  vehicles = [];
  storage_capacities = [];
}

-- Partition 0 with the neighbours 1 and 2; link 1 belongs to partition 2.
abbrev broker : NetMessageBroker ℕ Car
broker = record {
  rank = 0;
  out_messages = [];
  in_messages = message 5 1 ∷ [];
  link_mapping = (1, 2) ∷ [];
  neighbors = 1 ∷ 2 ∷ [];
  global_sync = false;
}

-- Partition 1 is a tick ahead.
abbrev arrivals : List (SimMessage ℕ Car)
arrivals = sync (message 4 1) ∷ sync (message 5 1) ∷ sync (message 4 2) ∷ []

abbrev channels : Senders ℕ Car
channels = [] ∷ [] ∷ [] ∷ []

place : rank_for_link 1 broker ≡ some 2
unfolding rank_for_link get
place = refl

add_veh-vehicles_for_example :
    (b' : NetMessageBroker ℕ Car) × (add_veh passing 4 broker ≡ some b')
    × ((k : ℕ)
        → vehicles_for k b'
          ≡ (if 2 == k then vehicles_for k broker ++ passing ∷ [] else vehicles_for k broker))
add_veh-vehicles_for_example = add_veh-vehicles_for passing 4 broker refl place

fill-get_example : get 2 (fill 4 0 broker.neighbors broker.out_messages) ≡ (
    if contains 2 broker.neighbors
    then some (or_insert (get 2 broker.out_messages) (Messages.new 4 0 2))
    else get 2 broker.out_messages)
fill-get_example = fill-get 4 0 2 broker.neighbors broker.out_messages

all_answer :
    (k : ℕ) → contains k (to_receive 4 broker).expected ≡ true → answers 4 k arrivals ≡ true
unfolding contains answers pop_from_cache heap_pop
all_answer k c = ground (arith, c)

send_recv-IsExchanged_example :
    (senders' : Senders ℕ Car) × (s : Inbox ℕ Car) × (left : List (SimMessage ℕ Car)) × (send_recv 4
        arrivals channels broker
      ≡ some (senders', done s left))
    × IsExchanged 4 arrivals channels broker senders' s left
send_recv-IsExchanged_example =
    send_recv-IsExchanged 4 arrivals channels broker (omega arith, (omega arith, tt)) tt refl
      all_answer
