-- ===== src/Messaging/Receiving.antt =====
-- rust_qsim/src/simulation/messaging/sim_communication/local_communicator.rs: receiving until every neighbour is heard.
use parallel_qsim_rust.Prelude.{
  ℕ, ◌≤◌, ◌≡◌, refl, Bool, true, false, ◌==◌, ◌&&◌, ◌||◌, leb, List, [], ◌∷◌, ◌++◌, All-append,
  SameItems, count_if-append, arith, inl, inr, Bool-cases,
}
use parallel_qsim_rust.Prelude.Maps.{contains, contains-deactivate}
use parallel_qsim_rust.Time.{Tick}
use parallel_qsim_rust.Messaging.Messages.{SyncMessage, SimMessage, sync, barrier}
use parallel_qsim_rust.Messaging.Broker.{Inbox, done, handle_incoming_msg, arrive, is_done, receive}
use parallel_qsim_rust.Messaging.Cache.{at_hand, heard, heard-append, IsCurrent, IsLater}

done_empty : (expected : List ℕ) → is_done expected ≡ true → expected ≡ []
done_empty [] e = refl
done_empty (k ∷ ks) e = cc

module _ {F V : Type 0} where
  -- The sync messages among those that arrive.
  unfoldable pub syncs : List (SimMessage F V) → List (SyncMessage F V)
  syncs [] = []
  syncs (sync m ∷ ms) = m ∷ syncs ms
  syncs (barrier ∷ ms) = syncs ms

  -- Whether a message for exactly `now` comes from `k`.
  unfoldable pub answers : Tick → ℕ → List (SimMessage F V) → Bool
  answers now k [] = false
  answers now k (sync m ∷ ms) = m.from_process == k && m.time == now || answers now k ms
  answers now k (barrier ∷ ms) = answers now k ms

  -- No barrier message arrives.
  abbrev pub all_sync : List (SimMessage F V) → Bool
  all_sync [] = true
  all_sync (sync m ∷ ms) = all_sync ms
  all_sync (barrier ∷ ms) = false

  arrive-IsCurrent :
      (now : Tick) (neighbors : List ℕ) (m : SyncMessage F V) (s : Inbox F V)
      → IsCurrent now neighbors s
      → IsCurrent now neighbors (arrive now m s)
  unfolding handle_incoming_msg heard
  arrive-IsCurrent now neighbors m s h = elim (Bool-cases (leb m.time now)) [
    | inl due ↦
        let same : (arrive now m s).received ≡ s.received ++ m ∷ [] = ground (arith, due) in
        record {
          due =
              rw same (
                All-append (λ m. m.time ≤ now) s.received (m ∷ []) h.due (ground (arith, due), tt));
          listens = λ k near. ground (
            arith,
            due,
            h.listens k near,
            heard-append now k s.received (m ∷ []),
            contains-deactivate m.from_process k s.expected,
          );
        }
    | inr later ↦
        let same : (arrive now m s).received ≡ s.received = ground (arith, later) in
        record { due = rw same h.due; listens = λ k near. ground (arith, later, h.listens k near) }
  ]

  arrive-IsLater :
      (now : Tick) (m : SyncMessage F V) (s : Inbox F V)
      → IsLater now s.in_messages
      → IsLater now (arrive now m s).in_messages
  unfolding handle_incoming_msg
  arrive-IsLater now m s h = elim (Bool-cases (leb m.time now)) [
    | inl due ↦
        let same : (arrive now m s).in_messages ≡ s.in_messages = ground (arith, due) in rw same h
    | inr later ↦
        let same : (arrive now m s).in_messages ≡ m ∷ s.in_messages = ground (arith, later) in
        rw same (ground (arith, later), h)
  ]

  arrive-SameItems :
      (now : Tick) (m : SyncMessage F V) (s : Inbox F V)
      → SameItems (at_hand (arrive now m s)) (m ∷ at_hand s)
  unfolding handle_incoming_msg
  arrive-SameItems now m s p = elim (Bool-cases (leb m.time now)) [
    | inl due ↦
        let same : at_hand (arrive now m s) ≡ (s.received ++ m ∷ []) ++ s.in_messages =
          ground (arith, due) in
        rw same (simp (count_if-append) (ground arith))
    | inr later ↦
        let same : at_hand (arrive now m s) ≡ s.received ++ m ∷ s.in_messages =
          ground (arith, later) in
        rw same (simp (count_if-append) (ground arith))
  ]

  -- What holds of an inbox `s'` and the messages `left` behind a loop over `arrivals` from `s`.
  pub record IsReceived (now : Tick) (neighbors : List ℕ) (arrivals : List (SimMessage F V))
      (s s' : Inbox F V) (left : List (SimMessage F V)) : Type 0 where
    pub current : IsCurrent now neighbors s'
    pub later : IsLater now s'.in_messages
    pub complete : s'.expected ≡ []
    pub kept : SameItems (at_hand s' ++ syncs left) (at_hand s ++ syncs arrivals)

  next_answers :
      (now : Tick) (m : SyncMessage F V) (arrivals : List (SimMessage F V)) (s : Inbox F V)
      → ((k : ℕ) → contains k s.expected ≡ true → answers now k (sync m ∷ arrivals) ≡ true)
      → (k : ℕ) → contains k (arrive now m s).expected ≡ true
      → answers now k arrivals ≡ true
  unfolding answers handle_incoming_msg
  next_answers now m arrivals s h k c =
      ground (arith, c, h k, contains-deactivate m.from_process k s.expected)

  nobody_answers :
      (now : Tick) (arrivals : List (SimMessage F V)) (expected : List ℕ)
      → arrivals ≡ []
      → ((k : ℕ) → contains k expected ≡ true → answers now k arrivals ≡ true)
      → is_done expected ≡ true
  unfolding answers contains
  nobody_answers now arrivals [] e h = refl
  nobody_answers now [] (k ∷ ks) e h = ground (arith, h k)
  nobody_answers now (m ∷ arrivals) (k ∷ ks) e h = cc

  -- The loop ends once every expected partition has answered for `now`, whatever else arrives before.
  pub receive-IsReceived :
      (now : Tick) (neighbors : List ℕ) (arrivals : List (SimMessage F V)) (s : Inbox F V)
      → all_sync arrivals ≡ true
      → ((k : ℕ) → contains k s.expected ≡ true → answers now k arrivals ≡ true)
      → IsCurrent now neighbors s
      → IsLater now s.in_messages
      → (s' : Inbox F V) × (left : List (SimMessage F V)) × (receive now arrivals s ≡ done s' left)
        × IsReceived now neighbors arrivals s s' left
  unfolding receive syncs
  receive-IsReceived now neighbors [] s sound answered h later =
      let ended = nobody_answers now [] s.expected refl answered in
      (
        s,
        [],
        rw ended refl,
        record {
          current = h;
          later = later;
          complete = done_empty s.expected ended;
          kept = λ p. refl;
        },
      )
  receive-IsReceived now neighbors (barrier ∷ arrivals) s sound answered h later = cc
  receive-IsReceived now neighbors (sync m ∷ arrivals) s sound answered h later =
      elim (Bool-cases (is_done s.expected)) [
        | inl ended ↦ (
          s,
          sync m ∷ arrivals,
          rw ended refl,
          record {
            current = h;
            later = later;
            complete = done_empty s.expected ended;
            kept = λ p. refl;
          },
        )
        | inr open_ ↦
            let (s', left, result, run) =
              receive-IsReceived now neighbors arrivals (arrive now m s) sound
                (next_answers now m arrivals s answered) (arrive-IsCurrent now neighbors m s h)
                (arrive-IsLater now m s later) in
            (
              s',
              left,
              rw open_ result,
              record {
                current = run.current;
                later = run.later;
                complete = run.complete;
                kept = λ p.
                    let all = run.kept p in
                    ground (
                      arith,
                      all,
                      arrive-SameItems now m s p,
                      count_if-append p (at_hand (arrive now m s)) (syncs arrivals),
                      count_if-append p (at_hand s) (m ∷ syncs arrivals),
                    );
              },
            )
      ]
