-- ===== src/Messaging/Exchange.antt =====
-- rust_qsim/src/simulation/messaging/sim_communication: one exchange of a partition with its neighbours.
use parallel_qsim_rust.Prelude.{
  ℕ, ◌≤◌, ◌<◌, ◌≡◌, ◌≢◌, ◌∙◌, ap, refl, true, some, List, [], ◌++◌, length, All, SameItems, arith,
  count_if-append,
}
use parallel_qsim_rust.Prelude.Maps.{get, contains}
use parallel_qsim_rust.Time.{Tick}
use parallel_qsim_rust.Messaging.Messages
use parallel_qsim_rust.Messaging.Messages.{SyncMessage, SimMessage}
use parallel_qsim_rust.Messaging.Broker.{
  NetMessageBroker, Inbox, Senders, done, or_insert, prepare_send_recv_vehicles, fill, send_recv,
  to_receive,
}
use parallel_qsim_rust.Messaging.Cache.{
  at_hand, heard, IsCurrent, IsLater, pop_from_cache-IsCurrent,
}
use parallel_qsim_rust.Messaging.Receiving.{syncs, answers, all_sync, receive-IsReceived}
use parallel_qsim_rust.Messaging.Filling.{first_message, messages_to-fill}
use parallel_qsim_rust.Messaging.Outbox.{
  channel, messages_to, messages_to-ne-nil, fill-get, fill-All, send_all-channel,
}

module _ {F V : Type 0} where
  -- What an exchange at `now` gives that sends over `senders` while `arrivals` arrive: the channels behind it, the
  -- inbox, and the arrivals that it does not take.
  pub record IsExchanged (now : Tick) (arrivals : List (SimMessage F V)) (senders : Senders F V)
      (b : NetMessageBroker F V) (senders' : Senders F V) (s : Inbox F V)
      (left : List (SimMessage F V)) : Type 0 where
    pub sent :
        (k : ℕ)
        → channel k senders'
          ≡ channel k senders
            ++ (messages_to k b.out_messages
                ++ first_message now b.rank k b.neighbors (get k b.out_messages))
    pub all_neighbors :
        (k : ℕ)
        → contains k b.neighbors ≡ true
        → messages_to k b.out_messages
            ++ first_message now b.rank k b.neighbors (get k b.out_messages)
          ≢ []
    pub due : All (λ m. m.time ≤ now) s.received
    pub later : IsLater now s.in_messages
    pub heard_all : (k : ℕ) → contains k b.neighbors ≡ true → heard now k s.received ≡ true
    pub kept : SameItems (at_hand s ++ syncs left) (b.in_messages ++ syncs arrivals)

  starts :
      (now : Tick) (b : NetMessageBroker F V)
      → IsCurrent now b.neighbors
          (record { expected = b.neighbors; received = []; in_messages = b.in_messages })
  starts now b = record { due = tt; listens = λ k near. ground (arith, near) }

  -- What is prepared for `k`: the messages that wait for it, or an empty one for a neighbour without any.
  prepared :
      (now : Tick) (b : NetMessageBroker F V) (k : ℕ)
      → messages_to k (prepare_send_recv_vehicles now b).0
        ≡ messages_to k b.out_messages
          ++ first_message now b.rank k b.neighbors (get k b.out_messages)
  unfolding prepare_send_recv_vehicles
  prepared now b k = messages_to-fill now b.rank k b.neighbors b.out_messages

  reach_neighbors :
      (now : Tick) (b : NetMessageBroker F V) (k : ℕ)
      → contains k b.neighbors ≡ true
      → messages_to k (prepare_send_recv_vehicles now b).0 ≢ []
  unfolding prepare_send_recv_vehicles
  reach_neighbors now b k near =
      let m = or_insert (get k b.out_messages) (Messages.new now b.rank k) in
      let found : get k (fill now b.rank b.neighbors b.out_messages) ≡ some m =
        ground (arith, near, fill-get now b.rank k b.neighbors b.out_messages) in
      messages_to-ne-nil k (fill now b.rank b.neighbors b.out_messages) found

  known_ranks :
      (now : Tick) (b : NetMessageBroker F V) (n : ℕ)
      → All (λ k. k < n) b.neighbors
      → All (λ p. p.0 < n) b.out_messages
      → All (λ p. p.0 < n) (prepare_send_recv_vehicles now b).0
  unfolding prepare_send_recv_vehicles
  known_ranks now b n near out = fill-All now b.rank n b.neighbors b.out_messages near out

  heard_by_all :
      (now : Tick) (neighbors : List ℕ) (s : Inbox F V)
      → s.expected ≡ []
      → IsCurrent now neighbors s
      → (k : ℕ) → contains k neighbors ≡ true
      → heard now k s.received ≡ true
  unfolding contains
  heard_by_all now neighbors s empty h k near = ground (arith, empty, h.listens k near)

  -- An exchange at `now` ends, if every partition that is still expected behind the cache answers for `now` and
  -- every rank has a channel. Then every channel has got the messages that waited for its partition, in order, and an
  -- empty one if that is a neighbour for which none waited, so every neighbour has been sent a message; every neighbour has
  -- been heard for `now` or earlier; the messages returned are due at `now`, those kept are later, and no message that
  -- was kept or arrived is lost or doubled.
  pub send_recv-IsExchanged :
      (now : Tick) (arrivals : List (SimMessage F V)) (senders : Senders F V)
      (b : NetMessageBroker F V)
      → All (λ k. k < length senders) b.neighbors
      → All (λ p. p.0 < length senders) b.out_messages
      → all_sync arrivals ≡ true
      → ((k : ℕ) → contains k (to_receive now b).expected ≡ true → answers now k arrivals ≡ true)
      → (senders' : Senders F V) × (s : Inbox F V) × (left : List (SimMessage F V)) × (send_recv now
            arrivals senders b
          ≡ some (senders', done s left))
        × IsExchanged now arrivals senders b senders' s left
  unfolding send_recv
  send_recv-IsExchanged now arrivals senders b near out sound answered =
      let (senders', all_sent, to) =
        send_all-channel (prepare_send_recv_vehicles now b).0 senders
          (known_ranks now b (length senders) near out) in
      let (current, later, items) =
        pop_from_cache-IsCurrent (length b.in_messages) now b.neighbors _ (omega arith)
          (starts now b) in
      let (s, left, result, run) =
        receive-IsReceived now b.neighbors arrivals (to_receive now b) sound answered current
          later in
      (
        senders',
        s,
        left,
        rw (all_sent, result) refl,
        record {
          sent = λ k. to k ∙ ap (λ t. channel k senders ++ t) (prepared now b k);
          all_neighbors = λ k near e. reach_neighbors now b k near (prepared now b k ∙ e);
          due = run.current.due;
          later = run.later;
          heard_all = heard_by_all now b.neighbors s run.complete run.current;
          kept = λ p.
              let kept = run.kept p in
              let same = items p in
              omega (
                arith,
                kept,
                same,
                count_if-append p (at_hand (to_receive now b)) (syncs arrivals),
                count_if-append p b.in_messages (syncs arrivals),
              );
        },
      )
