-- ===== src/Messaging/Cache.antt =====
-- rust_qsim/src/simulation/messaging/sim_communication/message_broker.rs: the messages kept for later ticks.
use parallel_qsim_rust.Prelude.{
  ℕ, zero, suc, ◌≤◌, ◌<◌, ◌≡◌, refl, subst, sym, ◌∙◌, Bool, true, false, ◌==◌, ◌&&◌, ◌||◌, leb,
  none, some, List, [], ◌∷◌, ◌++◌, length, All, All-append, SameItems, count_if-append, arith, inl,
  inr, Option-cases, Bool-cases,
}
use parallel_qsim_rust.Prelude.Maps.{contains, deactivate, contains-deactivate}
use parallel_qsim_rust.Time.{Tick}
use parallel_qsim_rust.Messaging.Messages.{SyncMessage, message_cmp}
use parallel_qsim_rust.Messaging.Broker.{Inbox, is_lt, heap_pop, pop_from_cache}

module _ {F V : Type 0} where
  -- The messages that a partition has, at hand and kept.
  abbrev pub at_hand : Inbox F V → List (SyncMessage F V)
  at_hand s = s.received ++ s.in_messages

  -- Whether a message for `now` or earlier has come from `k`.
  unfoldable pub heard : Tick → ℕ → List (SyncMessage F V) → Bool
  heard now k [] = false
  heard now k (m ∷ ms) = m.from_process == k && leb m.time now || heard now k ms

  pub heard-append :
      (now : Tick) (k : ℕ) (ms ns : List (SyncMessage F V))
      → heard now k (ms ++ ns) ≡ (heard now k ms || heard now k ns)
  unfolding heard
  heard-append now k [] ns = refl
  heard-append now k (m ∷ ms) ns = ground (arith, heard-append now k ms ns)

  -- What is received is due, and whoever is not expected any more is heard.
  pub record IsCurrent (now : Tick) (neighbors : List ℕ) (s : Inbox F V) : Type 0 where
    pub due : All (λ m. m.time ≤ now) s.received
    pub listens :
        (k : ℕ)
        → contains k neighbors ≡ true
        → (contains k s.expected || heard now k s.received) ≡ true

  abbrev pub IsLater : Tick → List (SyncMessage F V) → Type 0
  IsLater now ms = All (λ m. now < m.time) ms

  heap_pop-none : (h : List (SyncMessage F V)) → heap_pop h ≡ none → h ≡ []
  unfolding heap_pop
  heap_pop-none [] e = refl
  heap_pop-none (x ∷ h) e = ground (arith, e, Option-cases (heap_pop h))

  heap_pop-SameItems :
      (h : List (SyncMessage F V)) (m : SyncMessage F V) (rest : List (SyncMessage F V))
      → heap_pop h ≡ some (m, rest)
      → SameItems (m ∷ rest) h
  unfolding heap_pop
  heap_pop-SameItems [] m rest e p = cc
  heap_pop-SameItems (x ∷ h) m rest e p = elim (Option-cases (heap_pop h)) [
    | inl nothing ↦ ground (arith, nothing, heap_pop-none h nothing)
    | inr ((k, r), found) ↦ ground (arith, found, heap_pop-SameItems h k r found p)
  ]

  heap_pop-length :
      (h : List (SyncMessage F V)) (m : SyncMessage F V) (rest : List (SyncMessage F V))
      → heap_pop h ≡ some (m, rest)
      → length h ≡ suc (length rest)
  unfolding heap_pop
  heap_pop-length [] m rest e = cc
  heap_pop-length (x ∷ h) m rest e = elim (Option-cases (heap_pop h)) [
    | inl nothing ↦ ground (arith, nothing, heap_pop-none h nothing)
    | inr ((k, r), found) ↦ ground (arith, found, heap_pop-length h k r found)
  ]

  All-le_trans :
      (a b : Tick) (h : List (SyncMessage F V))
      → a ≤ b
      → All (λ e. b ≤ e.time) h
      → All (λ e. a ≤ e.time) h
  All-le_trans a b [] le _ = tt
  All-le_trans a b (e ∷ h) le (p, ps) = (omega arith, All-le_trans a b h le ps)

  All-lt-of-le :
      (now b : Tick) (h : List (SyncMessage F V))
      → now < b
      → All (λ e. b ≤ e.time) h
      → IsLater now h
  All-lt-of-le now b [] lt _ = tt
  All-lt-of-le now b (e ∷ h) lt (p, ps) = (omega arith, All-lt-of-le now b h lt ps)

  -- No message of a heap is earlier than the one popped.
  heap_pop-le :
      (h : List (SyncMessage F V)) (m : SyncMessage F V) (rest : List (SyncMessage F V))
      → heap_pop h ≡ some (m, rest)
      → All (λ e. m.time ≤ e.time) h
  unfolding heap_pop message_cmp
  heap_pop-le [] m rest e = tt
  heap_pop-le (x ∷ h) m rest e = elim (Option-cases (heap_pop h)) [
    | inl nothing ↦ ground (arith, nothing, heap_pop-none h nothing)
    | inr ((k, r), found) ↦
        let least = heap_pop-le h k r found in
        elim (Bool-cases (is_lt (message_cmp x k))) [
          | inl after ↦
              let same : k ≡ m = ground (arith, found, after) in
              subst (λ z. All (λ e. z.time ≤ e.time) (x ∷ h)) same (ground (arith, after), least)
          | inr before ↦
              let same : x ≡ m = ground (arith, found, before) in
              subst (λ z. All (λ e. z.time ≤ e.time) (x ∷ h)) same
                (omega arith, All-le_trans x.time k.time h (ground (arith, before)) least)
        ]
  ]

  nothing_later : (now : Tick) (h : List (SyncMessage F V)) → length h ≤ 0 → IsLater now h
  nothing_later now [] le = tt
  nothing_later now (m ∷ h) le = absurd (omega arith)

  abbrev pub Popped : Tick → List ℕ → Inbox F V → Inbox F V → Type 0
  Popped now neighbors s s' =
      IsCurrent now neighbors s' × IsLater now s'.in_messages × SameItems (at_hand s') (at_hand s)

  abbrev take_in : SyncMessage F V → List (SyncMessage F V) → Inbox F V → Inbox F V
  take_in m rest s = record {
    expected = deactivate m.from_process s.expected;
    received = s.received ++ m ∷ [];
    in_messages = rest;
  }

  take_in-IsCurrent :
      (now : Tick) (neighbors : List ℕ) (m : SyncMessage F V) (rest : List (SyncMessage F V))
      (s : Inbox F V)
      → m.time ≤ now
      → IsCurrent now neighbors s
      → IsCurrent now neighbors (take_in m rest s)
  unfolding heard
  take_in-IsCurrent now neighbors m rest s due h = record {
    due = All-append (λ m. m.time ≤ now) s.received (m ∷ []) h.due (due, tt);
    listens = λ k near. ground (
      arith,
      due,
      h.listens k near,
      heard-append now k s.received (m ∷ []),
      contains-deactivate m.from_process k s.expected,
    );
  }

  take_in-SameItems :
      (m : SyncMessage F V) (rest : List (SyncMessage F V)) (s : Inbox F V)
      → SameItems (m ∷ rest) s.in_messages
      → SameItems (at_hand (take_in m rest s)) (at_hand s)
  take_in-SameItems m rest s same p = simp (count_if-append) (ground (arith, same p))

  -- The order in which the cache gives its messages does not matter: no message is lost, those that are due are
  -- received, and the rest is later than `now`.
  pub pop_from_cache-IsCurrent :
      (n : ℕ) (now : Tick) (neighbors : List ℕ) (s : Inbox F V)
      → length s.in_messages ≤ n
      → IsCurrent now neighbors s
      → Popped now neighbors s (pop_from_cache n now s)
  unfolding pop_from_cache
  pop_from_cache-IsCurrent zero now neighbors s fits h =
      (h, nothing_later now s.in_messages fits, λ p. refl)
  pop_from_cache-IsCurrent (suc n) now neighbors s fits h =
      elim (Option-cases (heap_pop s.in_messages)) [
        | inl nothing ↦
            let same : s ≡ pop_from_cache (suc n) now s = rw (pop_from_cache, nothing) refl in
            subst (Popped now neighbors s) same
              (h, subst (IsLater now) (sym (heap_pop-none s.in_messages nothing)) tt, λ p. refl)
        | inr ((m, rest), found) ↦ elim (Bool-cases (leb m.time now)) [
          | inl due ↦
              let same : pop_from_cache n now (take_in m rest s) ≡ pop_from_cache (suc n) now s =
                rw (pop_from_cache, found, due) refl in
              let (current, later, items) =
                pop_from_cache-IsCurrent n now neighbors (take_in m rest s)
                  (omega (arith, heap_pop-length s.in_messages m rest found))
                  (take_in-IsCurrent now neighbors m rest s (ground (arith, due)) h) in
              subst (Popped now neighbors s) same (
                current,
                later,
                λ p.
                    items p
                    ∙ take_in-SameItems m rest s (heap_pop-SameItems s.in_messages m rest found) p,
              )
          | inr later ↦
              let same : s ≡ pop_from_cache (suc n) now s =
                rw (pop_from_cache, found, later) refl in
              subst (Popped now neighbors s) same (
                h,
                All-lt-of-le now m.time s.in_messages (ground (arith, later))
                    (heap_pop-le s.in_messages m rest found),
                λ p. refl,
              )
        ]
      ]
