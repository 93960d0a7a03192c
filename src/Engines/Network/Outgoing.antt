-- ===== src/Engines/Network/Outgoing.antt =====
-- rust_qsim/src/simulation/engines/network_engine.rs: the vehicles that wait in the messages of a broker.
use parallel_qsim_rust.Prelude.{
  ℕ, ◌+◌, ◌≡◌, refl, ap, Bool, true, false, Option, none, some, List, [], ◌∷◌, ◌++◌, All,
  append-nil, count_if, count_if-append, arith, inl, inr, Option-cases,
}
use parallel_qsim_rust.Prelude.Maps.{Map, get, put}
use parallel_qsim_rust.Time.{Tick, SimTime, SimClock, tick_to_time}
use parallel_qsim_rust.Float.{Vehicle}
use parallel_qsim_rust.Network.SimNetwork.{StorageUpdate}
use parallel_qsim_rust.Messaging.Messages
use parallel_qsim_rust.Messaging.Messages.{SyncMessage}
use parallel_qsim_rust.Messaging.Broker.{
  NetMessageBroker, entry, rank_for_link, add_veh, add_cap_update,
}
use parallel_qsim_rust.Engines.Network.{
  Passengers, PartitionEvent, hand_over_all, report_all, emit_partition_leave_events,
}

abbrev has_partition : Option ℕ → Bool
has_partition none = false
has_partition (some to) = true

module _ {F V : Type 0} where
  -- The vehicles of all messages that are to be sent.
  unfoldable pub outgoing : Map (SyncMessage F V) → List V
  outgoing [] = []
  outgoing ((k, m) ∷ ms) = m.vehicles ++ outgoing ms

  abbrev pub waiting : NetMessageBroker F V → List V
  waiting b = outgoing b.out_messages

  abbrev vehicles_in : Option (SyncMessage F V) → List V
  vehicles_in none = []
  vehicles_in (some m) = m.vehicles

  outgoing-put :
      (p : V → Bool) (k : ℕ) (m' : SyncMessage F V) (ms : Map (SyncMessage F V))
      → count_if p (outgoing (put k m' ms)) + count_if p (vehicles_in (get k ms))
        ≡ count_if p (outgoing ms) + count_if p m'.vehicles
  unfolding outgoing get put
  outgoing-put p k m' [] = simp append-nil (omega arith)
  outgoing-put p k m' ((j, m) ∷ ms) = ground (
    arith,
    outgoing-put p k m' ms,
    count_if-append p m'.vehicles (outgoing ms),
    count_if-append p m.vehicles (outgoing ms),
    count_if-append p m.vehicles (outgoing (put k m' ms)),
  )

  entry-vehicles :
      (k : ℕ) (now : Tick) (b : NetMessageBroker F V)
      → (entry k now b).vehicles ≡ vehicles_in (get k b.out_messages)
  unfolding entry Messages.new
  entry-vehicles k now b = ground (arith, Option-cases (get k b.out_messages))

  pub report_all-waiting :
      (p : V → Bool) (now : Tick) (us : List (StorageUpdate F)) (b : NetMessageBroker F V)
      → count_if p (waiting (report_all now us b)) ≡ count_if p (waiting b)
  unfolding report_all add_cap_update Messages.add_storage_cap
  report_all-waiting p now [] b = refl
  report_all-waiting p now (u ∷ us) b = omega (
    arith,
    report_all-waiting p now us (add_cap_update u now b),
    outgoing-put p u.from_part
        (Messages.add_storage_cap (record u { from_part = b.rank }) (entry u.from_part now b))
        b.out_messages,
    ap (count_if p) (entry-vehicles u.from_part now b),
  )

abbrev known : Option ℕ → Map ℕ → Bool
known none m = false
known (some link_id) m = has_partition (get link_id m)

module _ (F : Type 0) {V : Type 0} ⦃v : Vehicle F V⦄ where
  -- The link that a vehicle is on has a partition.
  abbrev pub is_known : Map ℕ → V → Bool
  is_known m x = known (v.curr_link_id x) m

  known_partition :
      (m : Map ℕ) (x : V)
      → is_known m x ≡ true
      → (link_id : ℕ) × (to : ℕ) × (v.curr_link_id x ≡ some link_id) × (get link_id m ≡ some to)
  known_partition m x h = elim (Option-cases (v.curr_link_id x)) [
    | inl nowhere ↦ absurd (ground (arith, h, nowhere))
    | inr (link_id, here) ↦ elim (Option-cases (get link_id m)) [
      | inl unknown ↦ absurd (ground (arith, h, here, unknown))
      | inr (to, found) ↦ (link_id, to, here, found)
    ]
  ]

module _ {F V : Type 0} ⦃v : Vehicle F V⦄ ⦃ps : Passengers V⦄ where
  pub hand_over_total :
      (clock : SimClock) (now : Tick) {time : SimTime} (xs : List V) (b : NetMessageBroker F V)
      → tick_to_time clock now ≡ some time
      → All (λ x. is_known F b.link_mapping x ≡ true) xs
      → (b' : NetMessageBroker F V) × (events : List PartitionEvent) × (hand_over_all F clock now xs
            b
          ≡ some (b', events))
        × ((p : V → Bool) → count_if p (waiting b') ≡ count_if p xs + count_if p (waiting b))
  unfolding hand_over_all add_veh rank_for_link Messages.add_veh
  hand_over_total clock now [] b clocked _ = (b, [], refl, λ p. omega arith)
  hand_over_total clock now {time} (x ∷ xs) b clocked (h, hs) =
      let (link_id, to, here, found) = known_partition F b.link_mapping x h in
      let m = Messages.add_veh x (entry to now b) in
      let b₁ : NetMessageBroker F V = record b { out_messages = put to m b.out_messages } in
      let (b', events, done, counts) = hand_over_total clock now xs b₁ clocked hs in
      (
        b',
        emit_partition_leave_events F x to time ++ events,
        rw here (rw found (rw clocked (rw done refl))),
        λ p. ground (
          arith,
          counts p,
          outgoing-put p to m b.out_messages,
          count_if-append p (entry to now b).vehicles (x ∷ []),
          ap (count_if p) (entry-vehicles to now b),
        ),
      )

module _ {F V : Type 0} ⦃v : Vehicle F V⦄ where
  -- A vehicle on a link with a partition is added to the vehicles that wait.
  pub add_veh-waiting :
      (now : Tick) (x : V) (b : NetMessageBroker F V)
      → is_known F b.link_mapping x ≡ true
      → (b' : NetMessageBroker F V) × (add_veh x now b ≡ some b')
        × ((p : V → Bool) → count_if p (waiting b') ≡ count_if p (x ∷ waiting b))
  unfolding add_veh rank_for_link Messages.add_veh
  add_veh-waiting now x b h =
      let (link_id, to, here, found) = known_partition F b.link_mapping x h in
      let m = Messages.add_veh x (entry to now b) in
      (
        record b { out_messages = put to m b.out_messages },
        rw here (rw found refl),
        λ p. ground (
          arith,
          outgoing-put p to m b.out_messages,
          count_if-append p (entry to now b).vehicles (x ∷ []),
          ap (count_if p) (entry-vehicles to now b),
        ),
      )
