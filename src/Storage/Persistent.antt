-- ===== src/Storage/Persistent.antt =====
-- omnipaxos_storage/src/persistent_storage.rs: `PersistentStorage`. The crates it stands on are parameters: the
-- commit log, the database (of sled or rocksdb, whichever feature is on; the code does the same with
-- either), and the conversions to bytes of bincode and zerocopy. Their errors, on which the code panics,
-- are left out but for bytes that cannot be read.
pub mod Refines
pub mod Calls
pub mod Simulation
mod Examples
use ik2203_distributed_coord.Prelude.{
  ℕ, zero, suc, ◌+◌, ◌-◌, List, [], ◌∷◌, ◌++◌, map, ltb, if◌then◌else◌, Option, none, some, Outcome,
  done, panic, ◌>>=◌, unwrap, Bool,
}
use mathlib.Core.Option
use ik2203_distributed_coord.Ballot.{Ballot, default, ballot_with}
use ik2203_distributed_coord.Storage.{StopSign, StopSignEntry, stopsign_with, stopsign_entry_with}

-- the keys of the database: "NPROM", "ACC", "DECIDE", "TRIM", "STOPSIGN", "SNAPSHOT"
pub data Key : Type 0 where
  nprom acc decide trimmed stopsign snapshot : Key

-- `BallotStorage`, `StopSignStorage` and `StopSignEntryStorage`: what is converted to bytes
pub record BallotStorage : Type 0 where
  pub n : ℕ
  pub priority : ℕ
  pub pid : ℕ

pub record StopSignStorage : Type 0 where
  pub config_id : ℕ
  pub nodes : List ℕ
  pub metadata : Option (List ℕ)

pub record StopSignEntryStorage : Type 0 where
  pub ss : StopSignStorage
  pub decided : Bool

abbrev pub ballot_storage_with : Ballot → BallotStorage
ballot_storage_with b = record { n = b.n; priority = b.priority; pid = b.pid }

abbrev pub stopsign_storage_with : StopSign → StopSignStorage
stopsign_storage_with ss = record {
  config_id = ss.config_id;
  nodes = ss.nodes;
  metadata = ss.metadata;
}

abbrev pub stopsign_entry_storage_with : StopSignEntry → StopSignEntryStorage
stopsign_entry_storage_with s = record {
  ss = stopsign_storage_with s.stopsign;
  decided = s.decided;
}

-- `Ballot::with(..)` and `StopSignEntry::with(..)` of what was read
abbrev pub ballot_of : BallotStorage → Ballot
ballot_of b = ballot_with b.n b.priority b.pid

abbrev pub stopsign_entry_of : StopSignEntryStorage → StopSignEntry
stopsign_entry_of s =
    stopsign_entry_with (stopsign_with s.ss.config_id s.ss.nodes s.ss.metadata) s.decided

-- What the code calls of the crates.
pub record Crates (T S Log Db : Type 0) : Type 0 where
  pub append : Log → List (List ℕ) → Log × (ℕ × ℕ)  -- the first offset and the number of messages
  pub truncate : Log → ℕ → Log
  pub next_offset : Log → ℕ
  pub read : Log → ℕ → List (List ℕ)
  pub new_log : Log  -- `CommitLog::new` where the old one was removed
  pub get : Db → Key → Option (List ℕ)
  pub insert : Db → Key → List ℕ → Db
  pub entry_bytes : T → List ℕ
  pub entry_from : List ℕ → Option T
  pub ballot_bytes : BallotStorage → List ℕ
  pub ballot_from : List ℕ → Option BallotStorage
  pub u64_bytes : ℕ → List ℕ
  pub u64_from : List ℕ → Option ℕ
  pub stopsign_bytes : StopSignEntryStorage → List ℕ
  pub stopsign_from : List ℕ → Option StopSignEntryStorage
  pub snapshot_bytes : S → List ℕ
  pub snapshot_from : List ℕ → Option S

pub record PersistentStorage (Log Db : Type 0) : Type 0 where
  pub commitlog : Log
  pub database : Db

-- a value of the database, or the default where the key is missing
unfoldable pub or_default : {A : Type 0} → A → (List ℕ → Option A) → Option (List ℕ) → Outcome A
or_default a from none = done a
or_default a from (some bytes) = unwrap (from bytes)

-- an optional value of the database
unfoldable pub or_none : {A : Type 0} → (List ℕ → Option A) → Option (List ℕ) → Outcome (Option A)
or_none from none = done none
or_none from (some bytes) = do a ← unwrap (from bytes); done (some a)

-- The loop of `get_entries`, which reads `n` messages.
unfoldable pub read_messages :
    {T : Type 0} → (List ℕ → Option T) → ℕ → List (List ℕ) → Outcome (List T)
read_messages from zero messages = done []
read_messages from (suc n) [] = panic
read_messages from (suc n) (msg ∷ messages) = do
  entry ← unwrap (from msg)
  entries ← read_messages from n messages
  done (entry ∷ entries)

module _ {T S Log Db : Type 0} (c : Crates T S Log Db) where
  abbrev pub read_ballot : List ℕ → Option Ballot
  read_ballot bytes = Option.map ballot_of (c.ballot_from bytes)

  abbrev pub read_stopsign : List ℕ → Option StopSignEntry
  read_stopsign bytes = Option.map stopsign_entry_of (c.stopsign_from bytes)

  unfoldable pub append_entry : PersistentStorage Log Db → T → PersistentStorage Log Db × ℕ
  append_entry p entry =
      let (log, offset) = c.append p.commitlog (c.entry_bytes entry ∷ []) in
      (record p { commitlog = log }, offset.0 + 1)

  unfoldable pub append_entries : PersistentStorage Log Db → List T → PersistentStorage Log Db × ℕ
  append_entries p entries =
      let (log, offset) = c.append p.commitlog (map c.entry_bytes entries) in
      (record p { commitlog = log }, offset.0 + offset.1)

  unfoldable pub append_on_prefix :
      PersistentStorage Log Db → ℕ → List T → PersistentStorage Log Db × ℕ
  unfolding append_entries
  append_on_prefix p from_idx entries =
      append_entries
        (if ltb 0 from_idx then record p { commitlog = c.truncate p.commitlog from_idx } else p)
        entries

  -- `to - from`, which the capacity of the vector is, panics below zero, as in a debug build.
  unfoldable pub get_entries : PersistentStorage Log Db → ℕ → ℕ → Outcome (List T)
  unfolding read_messages
  get_entries p from to =
      if ltb (c.next_offset p.commitlog) to
      then done []
      else if ltb to from
      then panic
      else read_messages c.entry_from (to - from) (c.read p.commitlog from)

  unfoldable pub get_log_len : PersistentStorage Log Db → ℕ
  get_log_len p = c.next_offset p.commitlog

  unfoldable pub get_suffix : PersistentStorage Log Db → ℕ → Outcome (List T)
  unfolding get_entries
  get_suffix p from = get_entries p from (c.next_offset p.commitlog)

  unfoldable pub put : PersistentStorage Log Db → Key → List ℕ → PersistentStorage Log Db
  put p key bytes = record p { database = c.insert p.database key bytes }

  unfoldable pub get_promise : PersistentStorage Log Db → Outcome Ballot
  unfolding or_default
  get_promise p = or_default default read_ballot (c.get p.database nprom)

  unfoldable pub set_promise : PersistentStorage Log Db → Ballot → PersistentStorage Log Db
  unfolding put
  set_promise p n_prom = put p nprom (c.ballot_bytes (ballot_storage_with n_prom))

  unfoldable pub get_decided_idx : PersistentStorage Log Db → Outcome ℕ
  unfolding or_default
  get_decided_idx p = or_default 0 c.u64_from (c.get p.database decide)

  unfoldable pub set_decided_idx : PersistentStorage Log Db → ℕ → PersistentStorage Log Db
  unfolding put
  set_decided_idx p ld = put p decide (c.u64_bytes ld)

  unfoldable pub get_accepted_round : PersistentStorage Log Db → Outcome Ballot
  unfolding or_default
  get_accepted_round p = or_default default read_ballot (c.get p.database acc)

  unfoldable pub set_accepted_round : PersistentStorage Log Db → Ballot → PersistentStorage Log Db
  unfolding put
  set_accepted_round p na = put p acc (c.ballot_bytes (ballot_storage_with na))

  unfoldable pub get_compacted_idx : PersistentStorage Log Db → Outcome ℕ
  unfolding or_default
  get_compacted_idx p = or_default 0 c.u64_from (c.get p.database trimmed)

  unfoldable pub set_compacted_idx : PersistentStorage Log Db → ℕ → PersistentStorage Log Db
  unfolding put
  set_compacted_idx p trimmed_idx = put p trimmed (c.u64_bytes trimmed_idx)

  unfoldable pub get_stopsign : PersistentStorage Log Db → Outcome (Option StopSignEntry)
  unfolding or_none
  get_stopsign p = or_none read_stopsign (c.get p.database stopsign)

  unfoldable pub set_stopsign : PersistentStorage Log Db → StopSignEntry → PersistentStorage Log Db
  unfolding put
  set_stopsign p s = put p stopsign (c.stopsign_bytes (stopsign_entry_storage_with s))

  unfoldable pub get_snapshot : PersistentStorage Log Db → Outcome (Option S)
  unfolding or_none
  get_snapshot p = or_none c.snapshot_from (c.get p.database snapshot)

  unfoldable pub set_snapshot : PersistentStorage Log Db → S → PersistentStorage Log Db
  unfolding put
  set_snapshot p s = put p snapshot (c.snapshot_bytes s)

  -- The entries from `trimmed_idx` on are written to a new commit log.
  unfoldable pub trim : PersistentStorage Log Db → ℕ → Outcome (PersistentStorage Log Db)
  unfolding get_entries append_entries
  trim p trimmed_idx = do
    trimmed_log ← get_entries p trimmed_idx (c.next_offset p.commitlog)
    done (append_entries (record p { commitlog = c.new_log }) trimmed_log).0
