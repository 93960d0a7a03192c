-- ===== src/Network/Link/Split.antt =====
-- rust_qsim/src/simulation/network/link.rs: links across partitions, and the dispatch over all kinds of links.
-- `none` is a panic.
use parallel_qsim_rust.Prelude.{ℕ, Bool, Option, none, some, ◌>>=◌, List, [], ◌∷◌, ◌++◌}
use parallel_qsim_rust.Time.{Tick}
use parallel_qsim_rust.Float.{F64, Vehicle}
use parallel_qsim_rust.Network.Capacity.{StorageCap, build, consume, is_available}
use parallel_qsim_rust.Network.StuckTimer
use parallel_qsim_rust.Network.LinkState.{LinkPosition, q_start, waiting, LinkData, LocalLink}
use parallel_qsim_rust.Network.Link

pub record SplitOutLink (F V : Type 0) : Type 0 where
  pub id : ℕ
  pub to_part : ℕ
  pub q : List V
  pub storage_cap : StorageCap F

pub record SplitInLink (F V : Type 0) : Type 0 where
  pub from_part : ℕ
  pub local_link : LocalLink F V

pub data SimLink (F V : Type 0) : Type 0 where
  local : LocalLink F V → SimLink F V
  inward : SplitInLink F V → SimLink F V
  out : SplitOutLink F V → SimLink F V

module _ {F V : Type 0} ⦃f : F64 F⦄ ⦃v : Vehicle F V⦄ where
  unfoldable pub new_out : LinkData F → F → F → ℕ → SplitOutLink F V
  new_out d effective_cell_size sample_size to_part = record {
    id = d.id;
    to_part = to_part;
    q = [];
    storage_cap = build d.length d.permlanes d.capacity sample_size effective_cell_size;
  }

  unfoldable pub apply_storage_cap_update : F → SplitOutLink F V → SplitOutLink F V
  apply_storage_cap_update released o = record o {
    storage_cap = consume (f.neg released) o.storage_cap;
  }

  unfoldable pub take_veh : SplitOutLink F V → List V × SplitOutLink F V
  take_veh o = (o.q, record o { q = [] })

  unfoldable pub push_out : V → LinkPosition → SplitOutLink F V → Option (SplitOutLink F V)
  push_out x q_start o =
      some (record o { storage_cap = consume (v.pce x) o.storage_cap; q = o.q ++ x ∷ [] })
  push_out x waiting o = none

  unfoldable pub occupied_storage : SplitInLink F V → F
  occupied_storage i = i.local_link.storage_cap.used

  unfoldable pub id : SimLink F V → ℕ
  id (local l) = l.id
  id (inward i) = i.local_link.id
  id (out o) = o.id

  pub from : SimLink F V → Option ℕ
  from (local l) = some l.from
  from (inward i) = some i.local_link.from
  from (out o) = none

  pub to : SimLink F V → Option ℕ
  to (local l) = some l.to
  to (inward i) = some i.local_link.to
  to (out o) = none

  unfoldable pub neighbor_part : SimLink F V → Option ℕ
  neighbor_part (local l) = none
  neighbor_part (inward i) = some i.from_part
  neighbor_part (out o) = some o.to_part

  unfoldable pub flow_cap : SimLink F V → Option F
  flow_cap (local l) = some l.flow_cap.capacity_per_tick
  flow_cap (inward i) = some i.local_link.flow_cap.capacity_per_tick
  flow_cap (out o) = none

  abbrev pub set_local : SplitInLink F V → LocalLink F V → SimLink F V
  set_local i l = inward (record i { local_link = l })

  unfoldable pub offers_veh : Tick → SimLink F V → Option (Option V × SimLink F V)
  unfolding Link.offers_veh
  offers_veh now (local l) = let (x, l') = Link.offers_veh now l in some (x, local l')
  offers_veh now (inward i) =
      let (x, l') = Link.offers_veh now i.local_link in some (x, set_local i l')
  offers_veh now (out o) = none

  unfoldable pub is_veh_stuck : Tick → SimLink F V → Option Bool
  is_veh_stuck now (local l) = some (StuckTimer.is_stuck now l.stuck_timer)
  is_veh_stuck now (inward i) = some (StuckTimer.is_stuck now i.local_link.stuck_timer)
  is_veh_stuck now (out o) = none

  unfoldable pub is_available_link : SimLink F V → Option Bool
  is_available_link (local l) = some (is_available l.storage_cap)
  is_available_link (inward i) = none
  is_available_link (out o) = some (is_available o.storage_cap)

  unfoldable pub is_active : SimLink F V → Option Bool
  unfolding Link.is_active
  is_active (local l) = some (Link.is_active l)
  is_active (inward i) = some (Link.is_active i.local_link)
  is_active (out o) = none

  unfoldable pub push_veh : V → LinkPosition → Tick → SimLink F V → Option (SimLink F V)
  unfolding Link.push_veh push_out
  push_veh x position now (local l) = some (local (Link.push_veh x now position l))
  push_veh x position now (inward i) =
      some (set_local i (Link.push_veh x now position i.local_link))
  push_veh x position now (out o) = push_out x position o >>= λ o'. some (out o')

  unfoldable pub pop_veh : SimLink F V → Option (Option V × SimLink F V)
  unfolding Link.pop_veh
  pop_veh (local l) = let (x, l') = Link.pop_veh l in some (x, local l')
  pop_veh (inward i) = let (x, l') = Link.pop_veh i.local_link in some (x, set_local i l')
  pop_veh (out o) = none

  unfoldable pub drain : SimLink F V → List V × SimLink F V
  unfolding Link.drain take_veh
  drain (local l) = let (xs, l') = Link.drain l in (xs, local l')
  drain (inward i) = let (xs, l') = Link.drain i.local_link in (xs, set_local i l')
  drain (out o) = let (xs, o') = take_veh o in (xs, out o')
