-- ===== src/Messaging/Broker.antt =====
-- rust_qsim/src/simulation/messaging/sim_communication: message_broker.rs, and the `ChannelSimCommunicator`
-- of local_communicator.rs with it. `BinaryHeap` is a bag: `pop` removes a message that no other exceeds.
-- The channels of the standard library are one list of messages for each receiver, and what a partition receives
-- during one exchange is the list of messages that arrive for it; to wait for one more is `waits`.
use Prim.Native.Nat.{Ordering}
use parallel_qsim_rust.Prelude.{
  ℕ, zero, suc, Bool, true, false, ◌==◌, leb, if◌then◌else◌, Option, none, some, ◌>>=◌, List, [],
  ◌∷◌, ◌++◌, length,
}
use parallel_qsim_rust.Prelude.Maps.{Map, get, put, deactivate}
use parallel_qsim_rust.Time.{Tick}
use parallel_qsim_rust.Float.{Vehicle}
use parallel_qsim_rust.Network.SimNetwork.{StorageUpdate}
use parallel_qsim_rust.Messaging.Messages
use parallel_qsim_rust.Messaging.Messages.{SyncMessage, SimMessage, sync, sync_message, message_cmp}

pub record NetMessageBroker (F V : Type 0) : Type 0 where
  pub rank : ℕ
  pub out_messages : Map (SyncMessage F V)
  pub in_messages : List (SyncMessage F V)
  pub link_mapping : Map ℕ
  pub neighbors : List ℕ
  pub global_sync : Bool

abbrev pub or_insert : {A : Type 0} → Option A → A → A
or_insert none new = new
or_insert (some old) new = old

abbrev pub is_lt : Ordering → Bool
is_lt Ordering.lt = true
is_lt Ordering.eq = false
is_lt Ordering.gt = false

-- The messages expected, those received and those kept for later.
pub record Inbox (F V : Type 0) : Type 0 where
  pub expected : List ℕ
  pub received : List (SyncMessage F V)
  pub in_messages : List (SyncMessage F V)

-- `senders`: the messages sent to each rank.
abbrev pub Senders : (F V : Type 0) → Type 0
Senders F V = List (List (SimMessage F V))

-- What `recv` leads to: a panic, a wait for one more message, or the end of the loop with the messages that have
-- arrived and are not taken.
pub data Received (F V : Type 0) : Type 0 where
  panics waits : Received F V
  done : Inbox F V → List (SimMessage F V) → Received F V

abbrev pub is_done : List ℕ → Bool
is_done [] = true
is_done (k ∷ ks) = false

module _ {F V : Type 0} where
  unfoldable pub new : ℕ → Map ℕ → List ℕ → Bool → NetMessageBroker F V
  new rank link_mapping neighbors global_sync = record {
    rank = rank;
    out_messages = [];
    in_messages = [];
    link_mapping = link_mapping;
    neighbors = neighbors;
    global_sync = global_sync;
  }

  unfoldable pub rank_for_link : ℕ → NetMessageBroker F V → Option ℕ
  rank_for_link link_id b = get link_id b.link_mapping

  -- The message for `partition`, a new one if there is none yet.
  unfoldable pub entry : ℕ → Tick → NetMessageBroker F V → SyncMessage F V
  entry partition now b =
      or_insert (get partition b.out_messages) (Messages.new now b.rank partition)

  unfoldable pub add_veh :
      ⦃v : Vehicle F V⦄ → V → Tick → NetMessageBroker F V → Option (NetMessageBroker F V)
  unfolding entry Messages.add_veh rank_for_link
  add_veh ⦃v⦄ x now b = do
    link_id ← v.curr_link_id x
    partition ← rank_for_link link_id b
    some (record b {
      out_messages = put partition (Messages.add_veh x (entry partition now b)) b.out_messages;
    })

  unfoldable pub add_cap_update :
      StorageUpdate F → Tick → NetMessageBroker F V → NetMessageBroker F V
  unfolding entry Messages.add_storage_cap
  add_cap_update cap now b = record b {
    out_messages =
        put cap.from_part
          (Messages.add_storage_cap (record cap { from_part = b.rank }) (entry cap.from_part now b))
          b.out_messages;
  }

  abbrev pub keep_greater :
      SyncMessage F V
      → List (SyncMessage F V)
      → Option (SyncMessage F V × List (SyncMessage F V))
      → Option (SyncMessage F V × List (SyncMessage F V))
  keep_greater e es none = some (e, [])
  keep_greater e es (some (m, rest)) =
      if is_lt (message_cmp e m) then some (m, e ∷ rest) else some (e, es)

  -- `peek` and the `pop` that follows it.
  unfoldable pub heap_pop :
      List (SyncMessage F V) → Option (SyncMessage F V × List (SyncMessage F V))
  unfolding message_cmp
  heap_pop [] = none
  heap_pop (e ∷ es) = keep_greater e es (heap_pop es)

  -- The `while let` of `pop_from_cache`, with a round for each message.
  unfoldable pub pop_from_cache : ℕ → Tick → Inbox F V → Inbox F V
  unfolding heap_pop
  pop_from_cache zero now s = s
  pop_from_cache (suc n) now s = elim (heap_pop s.in_messages) [
    | none ↦ s
    | some (m, rest) ↦
        let next = pop_from_cache n now (record {
          expected = deactivate m.from_process s.expected;
          received = s.received ++ m ∷ [];
          in_messages = rest;
        }) in
        if leb m.time now then next else s
  ]

  unfoldable pub handle_incoming_msg : Tick → SyncMessage F V → Inbox F V → Inbox F V
  handle_incoming_msg now m s =
      if leb m.time now
      then record s { received = s.received ++ m ∷ [] }
      else record s { in_messages = m ∷ s.in_messages }

  -- A new message for every neighbour that has none.
  unfoldable pub fill : Tick → ℕ → List ℕ → Map (SyncMessage F V) → Map (SyncMessage F V)
  fill now rank [] m = m
  fill now rank (k ∷ ks) m =
      fill now rank ks (put k (or_insert (get k m) (Messages.new now rank k)) m)

  unfoldable pub prepare_send_recv_vehicles :
      Tick → NetMessageBroker F V → Map (SyncMessage F V) × NetMessageBroker F V
  unfolding fill
  prepare_send_recv_vehicles now b =
      (fill now b.rank b.neighbors b.out_messages, record b { out_messages = [] })

  unfoldable pub send : ℕ → SimMessage F V → Senders F V → Option (Senders F V)
  send target m [] = none
  send zero m (c ∷ cs) = some ((c ++ m ∷ []) ∷ cs)
  send (suc target) m (c ∷ cs) = send target m cs >>= (λ cs'. some (c ∷ cs'))

  unfoldable pub send_all : Map (SyncMessage F V) → Senders F V → Option (Senders F V)
  unfolding send
  send_all [] cs = some cs
  send_all ((target, m) ∷ ms) cs = send target (sync m) cs >>= send_all ms

  abbrev pub arrive : Tick → SyncMessage F V → Inbox F V → Inbox F V
  arrive now m s =
      let expected = if m.time == now then deactivate m.from_process s.expected else s.expected in
      handle_incoming_msg now m (record s { expected = expected })

  -- The loop of `send_receive_vehicles`.
  unfoldable pub receive : Tick → List (SimMessage F V) → Inbox F V → Received F V
  unfolding handle_incoming_msg sync_message
  receive now [] s = if is_done s.expected then done s [] else waits
  receive now (m ∷ arrivals) s =
      if is_done s.expected then done s (m ∷ arrivals) else elim (sync_message m) [
        | none ↦ panics
        | some msg ↦ receive now arrivals (arrive now msg s)
      ]

  abbrev pub to_receive : Tick → NetMessageBroker F V → Inbox F V
  to_receive now b =
      pop_from_cache (length b.in_messages) now
        (record { expected = b.neighbors; received = []; in_messages = b.in_messages })

  -- The channels behind the sends, and what is received. The barrier of `global_sync` only delays the calls.
  unfoldable pub send_recv :
      Tick
      → List (SimMessage F V)
      → Senders F V
      → NetMessageBroker F V
      → Option (Senders F V × Received F V)
  unfolding prepare_send_recv_vehicles send_all pop_from_cache receive
  send_recv now arrivals senders b = do
    senders' ← send_all (prepare_send_recv_vehicles now b).0 senders
    some (senders', receive now arrivals (to_receive now b))

  -- The broker behind an exchange that ended with this inbox.
  unfoldable pub after : NetMessageBroker F V → Inbox F V → NetMessageBroker F V
  after b s = record b { out_messages = []; in_messages = s.in_messages }
