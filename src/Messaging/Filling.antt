-- ===== src/Messaging/Filling.antt =====
-- rust_qsim/src/simulation/messaging/sim_communication/message_broker.rs: the messages that an exchange is prepared with.
use parallel_qsim_rust.Prelude.{
  ℕ, ◌≡◌, ◌∙◌, refl, sym, ap, false, ◌==◌, if◌then◌else◌, Option, none, some, List, [], ◌∷◌, ◌++◌,
  arith, append-nil, inl, inr, Option-cases, Bool-cases,
}
use parallel_qsim_rust.Prelude.Maps.{Map, get, put, get-put, contains}
use parallel_qsim_rust.Time.{Tick}
use parallel_qsim_rust.Messaging.Messages
use parallel_qsim_rust.Messaging.Messages.{SyncMessage, SimMessage, sync}
use parallel_qsim_rust.Messaging.Broker.{or_insert, fill}
use parallel_qsim_rust.Messaging.Outbox.{messages_to}

module _ {F V : Type 0} where
  abbrev empty_message : Tick → (from_process to_process : ℕ) → SyncMessage F V
  empty_message time from_process to_process = record {
    time = time;
    from_process = from_process;
    to_process = to_process;
    vehicles = [];
    storage_capacities = [];
  }

  -- The empty message for partition `k`, if it is a neighbour and no other message waits for it.
  abbrev pub first_message :
      Tick → (rank k : ℕ) → (neighbors : List ℕ) → Option (SyncMessage F V) → List (SimMessage F V)
  first_message now rank k neighbors none =
      if contains k neighbors then sync (empty_message now rank k) ∷ [] else []
  first_message now rank k neighbors (some m) = []

  abbrev inserted : (k j : ℕ) → SyncMessage F V → Option (SyncMessage F V) → List (SimMessage F V)
  inserted k j x none = if k == j then sync x ∷ [] else []
  inserted k j x (some m) = []

  messages_to-put :
      (k j : ℕ) (x : SyncMessage F V) (m : Map (SyncMessage F V))
      → messages_to j (put k (or_insert (get k m) x) m)
        ≡ messages_to j m ++ inserted k j x (get k m)
  unfolding messages_to put get
  messages_to-put k j x [] = refl
  messages_to-put k j x ((i, b) ∷ m) = elim (Bool-cases (i == k)) [
    | inl same ↦ ground (arith, append-nil (messages_to j m))
    | inr other ↦ ground (arith, messages_to-put k j x m)
  ]

  join_same :
      (now : Tick) (rank k j : ℕ) (ks : List ℕ) (xs : List (SimMessage F V))
      (o : Option (SyncMessage F V))
      → k ≡ j
      → (xs ++ inserted k j (empty_message now rank k) o)
          ++ first_message now rank j ks (some (or_insert o (empty_message now rank k)))
        ≡ xs ++ first_message now rank j (k ∷ ks) o
  unfolding contains
  join_same now rank k j ks xs none e = append-nil _ ∙ ap (λ t. xs ++ t) (ground (arith, e))
  join_same now rank k j ks xs (some m) e = append-nil _

  join_other :
      (now : Tick) (rank k j : ℕ) (ks : List ℕ) (xs : List (SimMessage F V))
      (o p : Option (SyncMessage F V))
      → k == j ≡ false
      → (xs ++ inserted k j (empty_message now rank k) o) ++ first_message now rank j ks p
        ≡ xs ++ first_message now rank j (k ∷ ks) p
  unfolding contains
  join_other now rank k j ks xs o p e =
      ap (λ t. t ++ first_message now rank j ks p)
        (ap (λ t. xs ++ t) (drop_insert o) ∙ append-nil xs)
      ∙ ap (λ t. xs ++ t) (skip p)
    where
      drop_insert : (o : Option (SyncMessage F V)) → inserted k j (empty_message now rank k) o ≡ []
      drop_insert none = rw e refl
      drop_insert (some m) = refl

      skip :
          (p : Option (SyncMessage F V))
          → first_message now rank j ks p ≡ first_message now rank j (k ∷ ks) p
      skip none = ground (arith, e)
      skip (some m) = refl

  pub messages_to-fill :
      (now : Tick) (rank j : ℕ) (ks : List ℕ) (m : Map (SyncMessage F V))
      → messages_to j (fill now rank ks m)
        ≡ messages_to j m ++ first_message now rank j ks (get j m)
  unfolding fill contains Messages.new
  messages_to-fill now rank j [] m = elim (Option-cases (get j m)) [
    | inl gone ↦ rw gone (sym (append-nil (messages_to j m)))
    | inr (a, e) ↦ rw e (sym (append-nil (messages_to j m)))
  ]
  messages_to-fill now rank j (k ∷ ks) m =
      let new : SyncMessage F V = Messages.new now rank k in
      let m' = put k (or_insert (get k m) new) m in
      messages_to-fill now rank j ks m'
      ∙ rw (messages_to-put k j new m, get-put k j (or_insert (get k m) new) m)
          (elim (Bool-cases (k == j)) [
            | inl same ↦
                let at_j : k ≡ j = ground arith in
                rw same (
                  join_same now rank k j ks (messages_to j m) (get k m) at_j
                  ∙ ap (λ i. messages_to j m ++ first_message now rank j (k ∷ ks) (get i m)) at_j)
            | inr other ↦
                rw other (join_other now rank k j ks (messages_to j m) (get k m) (get j m) other)
          ])
