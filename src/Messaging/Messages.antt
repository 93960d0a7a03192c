-- ===== src/Messaging/Messages.antt =====
-- rust_qsim/src/simulation/messaging/messages.rs. `none` is a panic.
use Prim.Native.Nat.{compare, Ordering}
use parallel_qsim_rust.Prelude.{ℕ, Option, none, some, List, [], ◌∷◌, ◌++◌}
use parallel_qsim_rust.Time.{Tick}
use parallel_qsim_rust.Network.SimNetwork.{StorageUpdate}

pub record SyncMessage (F V : Type 0) : Type 0 where
  pub time : Tick
  pub from_process : ℕ
  pub to_process : ℕ
  pub vehicles : List V
  pub storage_capacities : List (StorageUpdate F)

pub data SimMessage (F V : Type 0) : Type 0 where
  sync : SyncMessage F V → SimMessage F V
  barrier : SimMessage F V

module _ {F V : Type 0} where
  unfoldable pub sync_message : SimMessage F V → Option (SyncMessage F V)
  sync_message (sync m) = some m
  sync_message barrier = none

  unfoldable pub new : Tick → (from_process to_process : ℕ) → SyncMessage F V
  new time from_process to_process = record {
    time = time;
    from_process = from_process;
    to_process = to_process;
    vehicles = [];
    storage_capacities = [];
  }

  unfoldable pub add_veh : V → SyncMessage F V → SyncMessage F V
  add_veh x m = record m { vehicles = m.vehicles ++ x ∷ [] }

  unfoldable pub add_storage_cap : StorageUpdate F → SyncMessage F V → SyncMessage F V
  add_storage_cap u m = record m { storage_capacities = m.storage_capacities ++ u ∷ [] }

  unfoldable pub take_storage_capacities :
      SyncMessage F V → List (StorageUpdate F) × SyncMessage F V
  take_storage_capacities m = (m.storage_capacities, record m { storage_capacities = [] })

  unfoldable pub take_vehicles : SyncMessage F V → List V × SyncMessage F V
  take_vehicles m = (m.vehicles, record m { vehicles = [] })

  -- Reversed, so that the greatest message of a heap is the earliest.
  unfoldable pub message_cmp : SyncMessage F V → SyncMessage F V → Ordering
  message_cmp a b = compare b.time a.time
