-- ===== src/Network/Capacity.antt =====
-- rust_qsim/src/simulation/network/flow_cap.rs and storage_cap.rs.
pub mod History
use parallel_qsim_rust.Prelude.{◌≤◌, ◌≡◌, Bool, false, ltb, if◌then◌else◌, arith}
use parallel_qsim_rust.Time.{SimTime, duration_since}
use parallel_qsim_rust.Float.{F64, gt}

pub record Flowcap (F : Type 0) : Type 0 where
  pub last_update_time : SimTime
  pub remaining_capacity : F
  pub capacity_per_second : F
  pub capacity_per_tick : F

pub record StorageCap (F : Type 0) : Type 0 where
  pub max : F
  pub used : F

module _ {F : Type 0} ⦃f : F64 F⦄ where
  unfoldable pub new_flowcap : (capacity_h sample_size capacity_per_tick : F) → Flowcap F
  new_flowcap capacity_h sample_size capacity_per_tick = record {
    last_update_time = 0;
    remaining_capacity = capacity_per_tick;
    capacity_per_second = f.div (f.mul capacity_h sample_size) (f.lit 3600 0);
    capacity_per_tick = capacity_per_tick;
  }

  unfoldable pub update_capacity : SimTime → Flowcap F → Flowcap F
  unfolding duration_since
  update_capacity now c =
      let elapsed = f.as_secs (duration_since now c.last_update_time) in
      let acc = f.add (f.mul elapsed c.capacity_per_second) c.remaining_capacity in
      if ltb c.last_update_time now
      then record c { remaining_capacity = f.fmin acc c.capacity_per_tick; last_update_time = now }
      else c

  unfoldable pub has_capacity_left : Flowcap F → Bool
  has_capacity_left c = gt c.remaining_capacity (f.lit 1 10)

  unfoldable pub consume_flow : F → Flowcap F → Flowcap F
  consume_flow by c = record c { remaining_capacity = f.sub c.remaining_capacity by }

  unfoldable pub build :
      (length perm_lanes capacity_h sample_size effective_cell_size : F) → StorageCap F
  build length perm_lanes capacity_h sample_size effective_cell_size =
      let flow_cap_s = f.div (f.mul capacity_h sample_size) (f.lit 3600 0) in
      let cap = f.div (f.mul (f.mul length perm_lanes) sample_size) effective_cell_size in
      record { max = f.fmax flow_cap_s cap; used = f.lit 0 0 }

  unfoldable pub consume : F → StorageCap F → StorageCap F
  consume value c = record c { used = f.add c.used value }

  unfoldable pub release : F → StorageCap F → StorageCap F
  release value c = record c { used = f.sub c.used value }

  unfoldable pub is_available : StorageCap F → Bool
  is_available c = gt (f.sub c.max c.used) (f.lit 0 0)

  -- A second update at the same or an earlier time changes nothing.
  pub update_capacity_twice :
      (now earlier : SimTime) (c : Flowcap F)
      → earlier ≤ now
      → update_capacity earlier (update_capacity now c) ≡ update_capacity now c
  unfolding update_capacity
  update_capacity_twice now earlier c h = ground arith
