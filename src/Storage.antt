-- ===== src/Storage.antt =====
-- The storage layer of Sequence Paxos: omnipaxos_core/src/storage.rs (the types here and
-- `InternalStorage` in Storage/Internal and Storage/Read) and
-- omnipaxos_storage/src/memory_storage.rs (Storage/Memory), persistent_storage.rs (Storage/Persistent).
pub mod Memory
pub mod Persistent
pub mod Internal
pub mod Read
pub mod Frame
pub mod Examples
use ik2203_distributed_coord.Prelude.{ℕ, Bool, true, false, Option, List, Outcome, panic}

-- `StopSign`: the end of a configuration
pub record StopSign : Type 0 where
  pub config_id : ℕ  -- ConfigurationId = u32
  pub nodes : List ℕ
  pub metadata : Option (List ℕ)

pub record StopSignEntry : Type 0 where
  pub stopsign : StopSign
  pub decided : Bool

-- `StopSignEntry::with`, `StopSign::with`
abbrev pub stopsign_entry_with : StopSign → Bool → StopSignEntry
stopsign_entry_with s d = record { stopsign = s; decided = d }

abbrev pub stopsign_with : ℕ → List ℕ → Option (List ℕ) → StopSign
stopsign_with c ns m = record { config_id = c; nodes = ns; metadata = m }

-- `SnapshotType`. The source's third constructor only carries the type parameter.
pub data SnapshotType (S : Type 0) : Type 0 where
  complete : S → SnapshotType S
  delta : S → SnapshotType S
  phantom : SnapshotType S

-- The trait `Snapshot<T>`. Its functions may panic, as those of `()` do.
pub record Snapshot (T S : Type 0) : Type 0 where
  pub create : List T → Outcome S
  pub merge : S → S → Outcome S
  pub use_snapshots : Bool

-- `impl Snapshot<T> for ()`, the instance that the server takes
abbrev pub no_snapshot : {T : Type 0} → Snapshot T (Unit {0})
no_snapshot = record { create = λ _. panic; merge = λ _ _. panic; use_snapshots = false }

-- `CompactionErr` (omnipaxos_core/src/omni_paxos.rs)
pub data CompactionErr : Type 0 where
  undecided_index : ℕ → CompactionErr
  not_all_decided : ℕ → CompactionErr
  not_current_leader : ℕ → CompactionErr

-- `Result<A, E>`
pub data Result (A E : Type 0) : Type 0 where
  ok : A → Result A E
  err : E → Result A E

abbrev pub is_ok : {A E : Type 0} → Result A E → Bool
is_ok (ok a) = true
is_ok (err e) = false
