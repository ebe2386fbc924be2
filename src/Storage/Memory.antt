-- ===== src/Storage/Memory.antt =====
-- omnipaxos_storage/src/memory_storage.rs: `MemoryStorage`, the storage that the server uses.
use ik2203_distributed_coord.Prelude.{
  ℕ, ◌-◌, ◌&&◌, Option, none, List, [], ◌∷◌, ◌++◌, length, take, drop, leb, if◌then◌else◌, Outcome,
  done, panic,
}
use ik2203_distributed_coord.Ballot.{Ballot, default}
use ik2203_distributed_coord.Storage.{StopSignEntry}

module _ (T S : Type 0) where
  pub record MemoryStorage : Type 0 where
    pub log : List T
    pub n_prom : Ballot
    pub acc_round : Ballot
    pub ld : ℕ
    pub trimmed_idx : ℕ
    pub snapshot : Option S  -- the latest snapshot, if one was taken
    pub stopsign : Option StopSignEntry

  abbrev pub empty_storage : MemoryStorage
  empty_storage = record {
    log = [];
    n_prom = default;
    acc_round = default;
    ld = 0;
    trimmed_idx = 0;
    snapshot = none;
    stopsign = none;
  }

module _ {T S : Type 0} where
  -- Each writer returns the new storage and the length of the log, as the trait says.
  unfoldable pub append_entry : MemoryStorage T S → T → MemoryStorage T S × ℕ
  append_entry st entry = let log = st.log ++ entry ∷ [] in (record st { log = log }, length log)

  unfoldable pub append_entries : MemoryStorage T S → List T → MemoryStorage T S × ℕ
  append_entries st entries = let log = st.log ++ entries in (record st { log = log }, length log)

  -- `Vec::truncate` keeps a log that is already short enough.
  unfoldable pub append_on_prefix : MemoryStorage T S → ℕ → List T → MemoryStorage T S × ℕ
  unfolding append_entries
  append_on_prefix st from_idx entries =
      append_entries (record st { log = take from_idx st.log }) entries

  -- `self.log.get(from..to)`: nothing unless `from <= to <= len`
  unfoldable pub get_entries : MemoryStorage T S → ℕ → ℕ → List T
  get_entries st from to =
      if leb from to && leb to (length st.log) then take (to - from) (drop from st.log) else []

  unfoldable pub get_suffix : MemoryStorage T S → ℕ → List T
  get_suffix st from = if leb from (length st.log) then drop from st.log else []

  -- `Vec::drain(0..n)` panics when `n` is past the end.
  unfoldable pub trim : MemoryStorage T S → ℕ → Outcome (MemoryStorage T S)
  trim st n = if leb n (length st.log) then done (record st { log = drop n st.log }) else panic
