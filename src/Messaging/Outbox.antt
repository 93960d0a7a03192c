-- ===== src/Messaging/Outbox.antt =====
-- rust_qsim/src/simulation/messaging/sim_communication/message_broker.rs: what a partition sends.
use parallel_qsim_rust.Prelude.{
  ℕ, zero, suc, ◌<◌, ◌≡◌, ◌≢◌, refl, ap, sym, ◌∙◌, subst, ◌==◌, if◌then◌else◌, Option, none, some,
  List, [], ◌∷◌, ◌++◌, length, All, arith, append_assoc, append-nil, inl, inr, Option-cases,
  Bool-cases,
}
use mathlib.Core.List.{cons-ne-nil}
use parallel_qsim_rust.Prelude.Maps.{Map, get, put, get-put, contains}
use parallel_qsim_rust.Time.{Tick}
use parallel_qsim_rust.Float.{Vehicle}
use parallel_qsim_rust.Messaging.Messages
use parallel_qsim_rust.Messaging.Messages.{SyncMessage, SimMessage, sync}
use parallel_qsim_rust.Messaging.Broker.{
  NetMessageBroker, or_insert, add_veh, rank_for_link, entry, fill, send, send_all, Senders,
}

module _ {F V : Type 0} where
  abbrev vehicles_of : Option (SyncMessage F V) → List V
  vehicles_of none = []
  vehicles_of (some m) = m.vehicles

  -- The vehicles that wait for partition `k`.
  abbrev pub vehicles_for : ℕ → NetMessageBroker F V → List V
  vehicles_for k b = vehicles_of (get k b.out_messages)

  -- A vehicle whose link has a partition is added behind those that wait for this partition; the
  -- vehicles for all other partitions stay as they are.
  pub add_veh-vehicles_for :
      ⦃v : Vehicle F V⦄ (x : V) (now : Tick) (b : NetMessageBroker F V) {link_id partition : ℕ}
      → v.curr_link_id x ≡ some link_id
      → rank_for_link link_id b ≡ some partition
      → (b' : NetMessageBroker F V) × (add_veh x now b ≡ some b')
        × ((k : ℕ)
            → vehicles_for k b'
              ≡ (if partition == k then vehicles_for k b ++ x ∷ [] else vehicles_for k b))
  unfolding add_veh entry Messages.add_veh Messages.new
  add_veh-vehicles_for ⦃v⦄ x now b {link_id} {partition} on_link in_partition =
      let out = put partition (Messages.add_veh x (entry partition now b)) b.out_messages in
      (
        record b { out_messages = out },
        rw (on_link, in_partition) refl,
        λ k. ground (
          arith,
          Option-cases (get partition b.out_messages),
          get-put partition k (Messages.add_veh x (entry partition now b)) b.out_messages,
        ),
      )

  -- Every neighbour gets a message: the one that is there, or an empty one. No other partition gets one that had none.
  pub fill-get :
      (now : Tick) (rank j : ℕ) (ks : List ℕ) (m : Map (SyncMessage F V))
      → get j (fill now rank ks m)
        ≡ (if contains j ks then some (or_insert (get j m) (Messages.new now rank j)) else get j m)
  unfolding fill contains
  fill-get now rank j [] m = refl
  fill-get now rank j (k ∷ ks) m = ground (
    arith,
    Option-cases (get j m),
    fill-get now rank j ks (put k (or_insert (get k m) (Messages.new now rank k)) m),
    get-put k j (or_insert (get k m) (Messages.new now rank k)) m,
  )

  -- The messages for `k`, in the order in which they are sent.
  unfoldable pub messages_to : ℕ → Map (SyncMessage F V) → List (SimMessage F V)
  messages_to k [] = []
  messages_to k ((j, m) ∷ ms) = if j == k then sync m ∷ messages_to k ms else messages_to k ms

  -- What has been sent to `k`.
  abbrev pub channel : ℕ → Senders F V → List (SimMessage F V)
  channel k [] = []
  channel zero (c ∷ cs) = c
  channel (suc k) (c ∷ cs) = channel k cs

  send-channel :
      (target : ℕ) (m : SimMessage F V) (cs : Senders F V)
      → target < length cs
      → (cs' : Senders F V) × (send target m cs ≡ some cs')
        × (length cs' ≡ length cs)
        × ((k : ℕ) → channel k cs' ≡ (if target == k then channel k cs ++ m ∷ [] else channel k cs))
  unfolding send
  send-channel target m [] lt = absurd (omega arith)
  send-channel zero m (c ∷ cs) lt = ((c ++ m ∷ []) ∷ cs, refl, refl, first_channel)
    where
      first_channel :
          (k : ℕ)
          → channel k ((c ++ m ∷ []) ∷ cs)
            ≡ (if 0 == k then channel k (c ∷ cs) ++ m ∷ [] else channel k (c ∷ cs))
      first_channel zero = refl
      first_channel (suc k) = ground arith
  send-channel (suc target) m (c ∷ cs) lt =
      let (cs', sent, same, rest) = send-channel target m cs (omega arith) in
      (c ∷ cs', rw sent refl, ap suc same, other c cs' rest)
    where
      other :
          (c : List (SimMessage F V)) (cs' : Senders F V)
          → ((k : ℕ)
              → channel k cs' ≡ (if target == k then channel k cs ++ m ∷ [] else channel k cs))
          → (k : ℕ)
          → channel k (c ∷ cs')
            ≡ (if suc target == k then channel k (c ∷ cs) ++ m ∷ [] else channel k (c ∷ cs))
      other c cs' rest zero = ground arith
      other c cs' rest (suc k) = ground (arith, rest k)

  -- Sending to known ranks never panics, and appends to every channel the messages for it, in order.
  pub send_all-channel :
      (ms : Map (SyncMessage F V)) (cs : Senders F V)
      → All (λ p. p.0 < length cs) ms
      → (cs' : Senders F V) × (send_all ms cs ≡ some cs')
        × ((k : ℕ) → channel k cs' ≡ channel k cs ++ messages_to k ms)
  unfolding send_all messages_to
  send_all-channel [] cs _ = (cs, refl, λ k. sym (append-nil (channel k cs)))
  send_all-channel ((j, m) ∷ ms) cs (lt, lts) =
      let (c₁, sent, same, one) = send-channel j (sync m) cs lt in
      let (c₂, all_sent, all_to) =
        send_all-channel ms c₁ (subst (λ n. All (λ p. p.0 < n) ms) (sym same) lts) in
      (
        c₂,
        rw sent all_sent,
        λ k.
            ground (
              arith,
              one k,
              all_to k,
              append_assoc (channel k cs) (sync m ∷ []) (messages_to k ms),
            ),
      )

  put-All :
      (n k : ℕ) (a : SyncMessage F V) (m : Map (SyncMessage F V))
      → k < n
      → All (λ p. p.0 < n) m
      → All (λ p. p.0 < n) (put k a m)
  unfolding put
  put-All n k a [] lt _ = (lt, tt)
  put-All n k a ((j, b) ∷ m) lt (p, ps) = elim (Bool-cases (j == k)) [
    | inl same ↦ rw (put, same) (lt, ps)
    | inr other ↦ rw (put, other) (p, put-All n k a m lt ps)
  ]

  pub fill-All :
      (now : Tick) (rank n : ℕ) (ks : List ℕ) (m : Map (SyncMessage F V))
      → All (λ k. k < n) ks
      → All (λ p. p.0 < n) m
      → All (λ p. p.0 < n) (fill now rank ks m)
  unfolding fill
  fill-All now rank n [] m _ ps = ps
  fill-All now rank n (k ∷ ks) m (lt, lts) ps = fill-All now rank n ks _ lts (put-All n k _ m lt ps)

  pub messages_to-ne-nil :
      (k : ℕ) (ms : Map (SyncMessage F V)) {m : SyncMessage F V}
      → get k ms ≡ some m
      → messages_to k ms ≢ []
  unfolding messages_to get
  messages_to-ne-nil k [] e h = cc
  messages_to-ne-nil k ((j, x) ∷ ms) {m} e h = elim (Bool-cases (j == k)) [
    | inl same ↦
        let here : messages_to k ((j, x) ∷ ms) ≡ sync x ∷ messages_to k ms =
          rw (messages_to, same) refl in
        cons-ne-nil _ _ (sym here ∙ h)
    | inr other ↦
        let found : get k ((j, x) ∷ ms) ≡ get k ms = rw (get, other) refl in
        let there : messages_to k ((j, x) ∷ ms) ≡ messages_to k ms = rw (messages_to, other) refl in
        messages_to-ne-nil k ms (sym found ∙ e) (sym there ∙ h)
  ]
