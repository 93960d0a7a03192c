-- ===== src/Network/SimNetwork/Total.antt =====
-- rust_qsim/src/simulation/network/sim_network.rs: `move_links` never panics on links that can move.
use parallel_qsim_rust.Prelude.{
  ℕ, ◌≡◌, refl, sym, ap, ◌∙◌, subst, Bool, Bool-cases, true, ◌==◌, some, List, [], ◌∷◌, ◌++◌, All,
  arith, inl, inr, Option-cases, if◌then◌else◌, ◌⊎◌, ◌<◌, u64_mod, SameItems,
}
use parallel_qsim_rust.Prelude.Maps.{Map, get, put, get-put, activate}
use parallel_qsim_rust.Time.{Tick, SimTime, tick_to_time}
use parallel_qsim_rust.Float.{F64, gt, Vehicle}
use parallel_qsim_rust.Network.Capacity.{StorageCap}
use parallel_qsim_rust.Network.LinkState.{LocalLink}
use parallel_qsim_rust.Network.Link
use parallel_qsim_rust.Network.Link.{SimStep}
use parallel_qsim_rust.Network.Link.Moves.{vehicles, release_all}
use parallel_qsim_rust.Network.Link.Step.{do_sim_step-StepRun}
use parallel_qsim_rust.Network.Link.Split
use parallel_qsim_rust.Network.Link.Split.{SimLink, SplitInLink, local, inward, out}
use parallel_qsim_rust.Network.SimNetwork.{
  SimNetworkPartition, Gathered, Moved, StorageUpdate, gather, move_local_link, move_link, move_all,
  move_links, nothing_gathered, report, apply_gathered,
}
use parallel_qsim_rust.Network.SimNetwork.Vehicles.{on_links}
use parallel_qsim_rust.Network.SimNetwork.Invariant.{IsValid, moved_partition}

module _ {F V : Type 0} ⦃f : F64 F⦄ ⦃v : Vehicle F V⦄ where
  release_all-append :
      (xs ys : List V) (c : StorageCap F)
      → release_all (xs ++ ys) c ≡ release_all ys (release_all xs c)
  release_all-append [] ys c = refl
  release_all-append (x ∷ xs) ys c = release_all-append xs ys _

module _ {F : Type 0} (V : Type 0) ⦃f : F64 F⦄ ⦃v : Vehicle F V⦄ where
  -- Releasing vehicles lowers the used storage, or leaves it as it is. (So for finite numbers and vehicles of no
  -- negative size.)
  abbrev pub Releases : StorageCap F → Type 0
  Releases c =
      (xs ys : List V)
      → let before = release_all xs c in
        let diff = f.sub before.used (release_all ys before).used in
        (gt diff (f.lit 0 0) ≡ true) ⊎ (f.eq diff (f.lit 0 0) ≡ true)

module _ {F V : Type 0} ⦃f : F64 F⦄ ⦃v : Vehicle F V⦄ where
  -- The tick has a time on the link's clock, and what an incoming link releases can be reported.
  abbrev pub CanMove : Tick → SimLink F V → Type 0
  CanMove now (local l) = (time : SimTime) × (tick_to_time l.clock now ≡ some time)
  CanMove now (inward i) =
      (time : SimTime) × (tick_to_time i.local_link.clock now ≡ some time)
      × Releases V i.local_link.storage_cap
  CanMove now (out o) = Unit {0}

  offer_frame :
      (now : Tick) (b : List V) (l : LocalLink F V)
      → let l' = (Link.offer now b l).1 in (l'.clock ≡ l.clock) × (l'.storage_cap ≡ l.storage_cap)
  offer_frame now [] l = (refl, refl)
  offer_frame now (x ∷ b) l = ground arith

  to_nodes_frame :
      (now : Tick) (l : LocalLink F V)
      → let l' = (Link.to_nodes_active now l).1 in
        (l'.clock ≡ l.clock) × (l'.storage_cap ≡ l.storage_cap)
  unfolding Link.to_nodes_active
  to_nodes_frame now l = offer_frame _ l.buffer l

  move_local_total :
      (now : Tick) (nodes : List ℕ) (l : LocalLink F V) {time : SimTime}
      → tick_to_time l.clock now ≡ some time
      → (s : SimStep F V) × (nodes' : List ℕ) × (active : Bool) × (move_local_link now nodes l
          ≡ some (s, nodes', active))
        × (s.link.clock ≡ l.clock)
        × ((xs : List V) × (s.link.storage_cap ≡ release_all xs l.storage_cap))
  unfolding move_local_link
  move_local_total now nodes l e =
      let (s, done, run) = do_sim_step-StepRun now l e in
      let (clock, storage) = to_nodes_frame now s.link in
      let (node_active, l') = Link.to_nodes_active now s.link in
      (
        record s { link = l' },
        (if node_active then activate l'.to nodes else nodes),
        Link.is_active l',
        rw done refl,
        clock ∙ ap (λ k. k.clock) run.frame,
        (vehicles run.from_queue, storage ∙ run.storage),
      )

  report_total :
      (i i' : SplitInLink F V) (xs : List V)
      → i'.local_link.storage_cap ≡ release_all xs i.local_link.storage_cap
      → Releases V i.local_link.storage_cap
      → (u : List (StorageUpdate F)) × (report i'
            (f.sub (Split.occupied_storage i) (Split.occupied_storage i'))
          ≡ some u)
  unfolding report Split.occupied_storage
  report_total i i' xs same law =
      elim (Option-cases
        (report i' (f.sub (Split.occupied_storage i) (Split.occupied_storage i')))) [
          | inl refused ↦ absurd (ground (arith, refused, same, law [] xs))
          | inr found ↦ found
        ]

  Releases-release_all :
      (xs : List V) (c : StorageCap F) → Releases V c → Releases V (release_all xs c)
  Releases-release_all xs c law ys zs = rw (← release_all-append xs ys c) (law (xs ++ ys) zs)

  -- A link that can move is moved, and can move again.
  move_link_total :
      (now : Tick) (nodes : List ℕ) (k : SimLink F V)
      → CanMove now k
      → (m : Moved F V) × (move_link now nodes k ≡ some m) × CanMove now m.link
  unfolding move_link
  move_link_total now nodes (local l) (time, e) =
      let (s, nodes', active, done, clock, _) = move_local_total now nodes l e in
      (
        record {
          link = local s.link;
          active_nodes = nodes';
          is_active = active;
          exits = [];
          ends = s.ending_vehicles;
          updates = [];
          events = s.events;
        },
        rw done refl,
        (time, rw clock e),
      )
  move_link_total now nodes (inward i) (time, e, law) =
      let (s, nodes', active, done, clock, (xs, storage)) =
        move_local_total now nodes i.local_link e in
      let i' : SplitInLink F V = record i { local_link = s.link } in
      let (u, reported) = report_total i i' xs storage law in
      (
        record {
          link = inward i';
          active_nodes = nodes';
          is_active = active;
          exits = [];
          ends = s.ending_vehicles;
          updates = u;
          events = s.events;
        },
        rw done (rw reported refl),
        (
          time,
          rw clock e,
          subst (Releases V) (sym storage) (Releases-release_all xs i.local_link.storage_cap law),
        ),
      )
  move_link_total now nodes (out o) _ = (_, refl, tt)

  -- Every link that is stored can move.
  abbrev pub AllCanMove : Tick → Map (SimLink F V) → Type 0
  AllCanMove now m = (k : ℕ) (l : SimLink F V) → get k m ≡ some l → CanMove now l

  pub AllCanMove-entries :
      (now : Tick) (m : Map (SimLink F V)) → All (λ p. CanMove now p.1) m → AllCanMove now m
  unfolding get
  AllCanMove-entries now [] _ k l e = cc
  AllCanMove-entries now ((j, x) ∷ m) (c, cs) k l e = elim (Bool-cases (j == k)) [
    | inl same ↦ let this : x ≡ l = ground (arith, same, e) in subst (CanMove now) this c
    | inr other ↦ AllCanMove-entries now m cs k l (ground (arith, other, e))
  ]

  -- The links of a list of identities are stored.
  abbrev pub AreStored : List ℕ → Map (SimLink F V) → Type 0
  AreStored ids m = All (λ k. (l : SimLink F V) × (get k m ≡ some l)) ids

  put-AreStored :
      (j : ℕ) (x : SimLink F V) (ids : List ℕ) (m : Map (SimLink F V))
      → AreStored ids m
      → AreStored ids (put j x m)
  put-AreStored j x [] m _ = tt
  put-AreStored j x (k ∷ ids) m ((l, found), rest) = elim (Bool-cases (j == k)) [
    | inl same ↦ ((x, ground (arith, get-put j k x m, same)), put-AreStored j x ids m rest)
    | inr other ↦ ((l, ground (arith, get-put j k x m, other)), put-AreStored j x ids m rest)
  ]

  put-AllCanMove :
      (now : Tick) (j : ℕ) (x : SimLink F V) (m : Map (SimLink F V))
      → CanMove now x
      → AllCanMove now m
      → AllCanMove now (put j x m)
  put-AllCanMove now j x m can all k l e = elim (Bool-cases (j == k)) [
    | inl same ↦
        let this : x ≡ l = ground (arith, get-put j k x m, same) in subst (CanMove now) this can
    | inr other ↦ all k l (ground (arith, get-put j k x m, other))
  ]

  move_all_total :
      (now : Tick) (ids : List ℕ) (g : Gathered F V)
      → AreStored ids g.links
      → AllCanMove now g.links
      → (g' : Gathered F V) × (move_all now ids g ≡ some g')
  unfolding move_all
  move_all_total now [] g _ _ = (g, refl)
  move_all_total now (id ∷ ids) g ((link, found), stored) all =
      let (m, moved, again) = move_link_total now g.active_nodes link (all id link found) in
      let (g', done) =
        move_all_total now ids (gather id m g) (put-AreStored id m.link ids g.links stored)
          (put-AllCanMove now id m.link g.links again all) in
      (g', rw (found, moved) done)

module _ {F V R : Type 0} ⦃f : F64 F⦄ ⦃v : Vehicle F V⦄ where
  -- In a partition that keeps the invariant, whose active links are stored and whose links can all move, `move_links`
  -- returns. The partition behind it keeps the invariant, and no vehicle is lost or doubled: those that end their
  -- leg, those that leave the partition and those on its links are the vehicles that were on its links.
  pub move_links-IsValid :
      (now : Tick) (n : SimNetworkPartition F V R)
      → n.veh_counter < u64_mod
      → IsValid n
      → AreStored n.active_links n.links
      → AllCanMove now n.links
      → (n' : SimNetworkPartition F V R) × (g : Gathered F V) × (move_links now n ≡ some (n', g))
        × IsValid n'
        × SameItems
            (g.vehicles_end_leg ++ (g.vehicles_exit_partition ++ on_links n'.links))
            (on_links n.links)
  unfolding move_links
  move_links-IsValid now n fits valid stored all =
      let (g, done) =
        move_all_total now n.active_links (nothing_gathered n.links n.active_nodes) stored all in
      let e : move_links now n ≡ some (apply_gathered n g, g) = rw done refl in
      let (valid', same) = moved_partition now n fits valid e in
      (apply_gathered n g, g, e, valid', same)
