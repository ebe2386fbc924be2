-- ===== src/Server.antt =====
-- ddbb_server/src/ddbb_server.rs: the key-value server over OmniPaxos, with its log of applied
-- entries (`WALStore`) and its table (`KVStore`), and `LogEntry` of ddbb_libs/src/data_structure.rs.
-- The values are lists of bytes. A `HashMap` is an association list whose order nothing reads.
pub mod Table
pub mod Wal
pub mod Replay
pub mod Examples
pub mod Retrieve
pub mod Answers
use ik2203_distributed_coord.Prelude.{
  ℕ, suc, ◌+◌, Bool, true, false, ◌&&◌, Option, none, some, List, [], ◌∷◌, ◌++◌, ◌==◌, leb,
  if◌then◌else◌, Outcome, done, ◌>>=◌, add_u64,
}
use text.Mathlib.Text.{◌==◌ as str_eq}
use Prim.Native.String.{String}
use ik2203_distributed_coord.Storage.{is_ok}
use ik2203_distributed_coord.LeaderState.{is_some}
use ik2203_distributed_coord.Storage.Read.{LogEntry as OmniLogEntry}
use ik2203_distributed_coord.Storage.Read
use ik2203_distributed_coord.Paxos.Handle.{ProposeErr}
use ik2203_distributed_coord.Omni.{OmniPaxos, read_decided_suffix}
use ik2203_distributed_coord.Omni
use ik2203_distributed_coord.Server.Table
use ik2203_distributed_coord.Server.Wal.{
  LogEntry, set_value, lin_read, lin_write, compact, snapshot, find_log_by_opid,
}

-- `WALStore`
pub record WalStore : Type 0 where
  pub idx : ℕ
  pub store : List LogEntry

-- `DDBB`, less the peers and the connections. The locks are held for one call each.
pub record Ddbb : Type 0 where
  pub addr : String  -- `node_info.addr`
  pub wal_store : WalStore
  pub kv_store : List (String × List ℕ)
  pub omni : OmniPaxos LogEntry (Unit {0})
  pub timestamp : ℕ

-- `WALStore::append`, which puts the entry at the head
unfoldable pub append_wal : WalStore → LogEntry → WalStore
append_wal w log = record w { store = log ∷ w.store }

-- `DDBB::get`
unfoldable pub get : Ddbb → String → Option (List ℕ)
get d key = Table.get d.kv_store key

-- one decided entry in `retrieve_logs_from_omni`
unfoldable pub apply_entry : Ddbb → LogEntry → Ddbb
unfolding append_wal get
apply_entry d (set_value key value) = record d {
  wal_store = append_wal d.wal_store (set_value key value);
  kv_store = Table.put d.kv_store key value;
}
apply_entry d (lin_read opid key value) = record d {
  wal_store = append_wal d.wal_store (lin_read opid key (get d key));
}
apply_entry d (lin_write opid key value) = record d {
  kv_store = Table.put d.kv_store key value;
  wal_store = append_wal d.wal_store (lin_write opid key value);
}
apply_entry d compact =
    let w = append_wal d.wal_store compact in
    record d { wal_store = record w { store = snapshot w.store } }

-- An entry that is not `Decided` only moves the index.
unfoldable pub apply_read : Ddbb → OmniLogEntry LogEntry (Unit {0}) → Ddbb
unfolding apply_entry
apply_read d (OmniLogEntry.decided log) = apply_entry d log
apply_read d _ = d

-- the loop over the entries read, with `idx += 1` for each
unfoldable pub apply_all : Ddbb → List (OmniLogEntry LogEntry (Unit {0})) → Outcome Ddbb
unfolding apply_read
apply_all d [] = done d
apply_all d (e ∷ es) = do
  i ← add_u64 d.wal_store.idx 1
  apply_all (apply_read (record d { wal_store = record (d.wal_store) { idx = i } }) e) es

unfoldable pub apply_some : Ddbb → Option (List (OmniLogEntry LogEntry (Unit {0}))) → Outcome Ddbb
apply_some d none = done d
apply_some d (some es) = apply_all d es

unfoldable pub retrieve_logs_from_omni : Ddbb → Outcome Ddbb
unfolding apply_some
retrieve_logs_from_omni d = do es ← read_decided_suffix d.omni d.wal_store.idx; apply_some d es

-- `put_log_into_omni`; the error text is not modelled
unfoldable pub put_log_into_omni : Ddbb → LogEntry → Outcome (Ddbb × Bool)
put_log_into_omni d log = do r ← Omni.append d.omni log; done (record d { omni = r.0 }, is_ok r.1)

-- `DDBB::set`: the table is written before the entry is proposed.
unfoldable pub set : Ddbb → String → List ℕ → Outcome (Ddbb × Bool)
set d key value =
    put_log_into_omni (record d { kv_store = Table.put d.kv_store key value }) (set_value key value)

-- the first half of `lin_write` and of `lin_read`: a new timestamp, and the entry is proposed
unfoldable pub start_write : Ddbb → String → List ℕ → Outcome (Ddbb × ℕ)
start_write d key value = do
  ts ← add_u64 d.timestamp 1
  r ← put_log_into_omni (record d { timestamp = ts }) (lin_write (d.addr, ts) key value)
  done (r.0, ts)

unfoldable pub start_read : Ddbb → String → Outcome (Ddbb × ℕ)
start_read d key = do
  ts ← add_u64 d.timestamp 1
  r ← put_log_into_omni (record d { timestamp = ts }) (lin_read (d.addr, ts) key none)
  done (r.0, ts)

-- one round of the waiting loops: `none` is to wait on
unfoldable pub poll_write : Ddbb → ℕ → Bool
poll_write d ts = is_some (find_log_by_opid d.wal_store.store d.addr ts)

unfoldable pub read_value : Option LogEntry → Option (Option (List ℕ))
read_value (some (lin_read opid key value)) = some value
read_value _ = none

unfoldable pub poll_read : Ddbb → ℕ → Option (Option (List ℕ))
unfolding read_value
poll_read d ts = read_value (find_log_by_opid d.wal_store.store d.addr ts)

unfoldable pub compact_log : Ddbb → Outcome (Ddbb × Bool)
compact_log d = put_log_into_omni d compact
