-- ===== src/Storage/Read.antt =====
-- omnipaxos_core/src/storage.rs: the reading half of `InternalStorage`, with `LogEntry` and
-- `IndexEntry` of omnipaxos_core/src/util.rs. A range bound is a `Bound`, as in `RangeBounds`.
pub mod Labels
pub mod Suffix
mod Trimmed
use ik2203_distributed_coord.Prelude.{
  ℕ, ◌+◌, Bool, Option, none, some, List, [], ◌∷◌, ◌++◌, length, ltb, leb, ◌==◌, if◌then◌else◌,
  Outcome, done, panic, ◌>>=◌, add_u64, sub_u64,
}
use ik2203_distributed_coord.Storage.{StopSign, StopSignEntry}
use ik2203_distributed_coord.Storage.Memory.{MemoryStorage}
use ik2203_distributed_coord.Storage.Memory as M
use ik2203_distributed_coord.Storage.Internal.{get_log_len}

-- `LogEntry`; `SnapshottedEntry` is the pair of its two fields.
pub data LogEntry (T S : Type 0) : Type 0 where
  decided : T → LogEntry T S
  undecided : T → LogEntry T S
  trimmed : ℕ → LogEntry T S
  snapshotted : ℕ → S → LogEntry T S
  stopsign : StopSign → LogEntry T S

-- `IndexEntry`
pub data IndexEntry : Type 0 where
  entry : IndexEntry
  compacted : IndexEntry
  stopsign : StopSign → IndexEntry

-- `std::ops::Bound`
pub data Bound : Type 0 where
  included : ℕ → Bound
  excluded : ℕ → Bound
  unbounded : Bound

-- `Some(ss) if ss.decided => ..`
abbrev pub decided_stopsign : Option StopSignEntry → Option StopSign
decided_stopsign none = none
decided_stopsign (some ss) = if ss.decided then some ss.stopsign else none

abbrev stopsign_type : Option StopSign → Option IndexEntry
stopsign_type none = none
stopsign_type (some ss) = some (IndexEntry.stopsign ss)

unfoldable pub start_bound : Bound → Outcome ℕ
start_bound (included i) = done i
start_bound (excluded e) = add_u64 e 1
start_bound unbounded = done 0

unfoldable pub end_unbounded : Option StopSign → ℕ → Outcome ℕ
end_unbounded none idx = done idx
end_unbounded (some ss) idx = add_u64 idx 1

module _ {T S : Type 0} where
  unfoldable pub get_entry_type : MemoryStorage T S → ℕ → ℕ → ℕ → Option IndexEntry
  get_entry_type st idx compacted_idx virtual_log_len =
      if ltb idx compacted_idx
      then some compacted
      else if ltb idx virtual_log_len
      then some entry
      else if idx == virtual_log_len
      then stopsign_type (decided_stopsign st.stopsign)
      else none

  abbrev label : ℕ → ℕ → T → LogEntry T S
  label log_idx decided_idx e = if ltb decided_idx log_idx then undecided e else decided e

  -- The `enumerate().map(..)` over the entries, with the running index.
  unfoldable pub label_from : ℕ → ℕ → ℕ → List T → List (LogEntry T S)
  label_from i compacted_idx decided_idx [] = []
  label_from i compacted_idx decided_idx (e ∷ es) =
      label (i + compacted_idx) decided_idx e ∷ label_from (i + 1) compacted_idx decided_idx es

  unfoldable pub create_read_log_entries_with_real_idx :
      MemoryStorage T S → ℕ → ℕ → ℕ → ℕ → List (LogEntry T S)
  unfolding label_from
  create_read_log_entries_with_real_idx st from_sfx_idx to_sfx_idx compacted_idx decided_idx =
      label_from 0 compacted_idx decided_idx (M.get_entries st from_sfx_idx to_sfx_idx)

  unfoldable pub compacted_entry : Option S → ℕ → LogEntry T S
  compacted_entry none compacted_idx = trimmed compacted_idx
  compacted_entry (some s) compacted_idx = snapshotted compacted_idx s

  unfoldable pub create_compacted_entry : MemoryStorage T S → ℕ → LogEntry T S
  unfolding compacted_entry
  create_compacted_entry st compacted_idx = compacted_entry st.snapshot compacted_idx

  unfoldable pub end_bound : MemoryStorage T S → Bound → Outcome ℕ
  unfolding end_unbounded
  end_bound st (included i) = add_u64 i 1
  end_bound st (excluded e) = done e
  end_bound st unbounded = do idx ← get_log_len st; end_unbounded (decided_stopsign st.stopsign) idx

  -- The match on the types of the two ends; the last case is `unimplemented!`.
  unfoldable pub read_between :
      MemoryStorage T S
      → ℕ
      → ℕ
      → ℕ
      → IndexEntry
      → IndexEntry
      → Outcome (Option (List (LogEntry T S)))
  read_between st from_idx to_idx compacted_idx entry entry = do
    f ← sub_u64 from_idx compacted_idx
    t ← sub_u64 to_idx compacted_idx
    done (some (create_read_log_entries_with_real_idx st f t compacted_idx st.ld))
  read_between st from_idx to_idx compacted_idx entry (stopsign ss) = do
    f ← sub_u64 from_idx compacted_idx
    t ← sub_u64 to_idx compacted_idx
    t' ← sub_u64 t 1
    done (
        some (
          create_read_log_entries_with_real_idx st f t' compacted_idx st.ld
          ++ LogEntry.stopsign ss ∷ []))
  read_between st from_idx to_idx compacted_idx compacted entry = do
    t ← sub_u64 to_idx compacted_idx
    done (
        some (
          create_compacted_entry st compacted_idx
          ∷ create_read_log_entries_with_real_idx st 0 t compacted_idx st.ld))
  read_between st from_idx to_idx compacted_idx compacted (stopsign ss) = do
    t ← sub_u64 to_idx compacted_idx
    t' ← sub_u64 t 1
    done (
        some (
          create_compacted_entry st compacted_idx
          ∷ (create_read_log_entries_with_real_idx st 0 t' compacted_idx st.ld
              ++ LogEntry.stopsign ss ∷ [])))
  read_between st from_idx to_idx compacted_idx (stopsign ss) (stopsign _) =
      done (some (LogEntry.stopsign ss ∷ []))
  read_between st from_idx to_idx compacted_idx _ _ = panic

  unfoldable pub read_from :
      MemoryStorage T S
      → ℕ
      → ℕ
      → ℕ
      → IndexEntry
      → Option IndexEntry
      → Outcome (Option (List (LogEntry T S)))
  unfolding read_between
  read_from st from_idx to_idx compacted_idx to_type none = done none
  read_from st from_idx to_idx compacted_idx to_type (some from_type) =
      read_between st from_idx to_idx compacted_idx from_type to_type

  -- The type of the last index read decides first: a range that ends in the compacted part is the
  -- compacted entry alone.
  unfoldable pub read_to :
      MemoryStorage T S → ℕ → ℕ → ℕ → ℕ → Option IndexEntry → Outcome (Option (List (LogEntry T S)))
  unfolding read_from
  read_to st from_idx to_idx compacted_idx len none = done none
  read_to st from_idx to_idx compacted_idx len (some compacted) =
      done (some (create_compacted_entry st compacted_idx ∷ []))
  read_to st from_idx to_idx compacted_idx len (some to_type) =
      read_from st from_idx to_idx compacted_idx to_type
        (get_entry_type st from_idx compacted_idx len)

  unfoldable pub read : MemoryStorage T S → Bound → Bound → Outcome (Option (List (LogEntry T S)))
  unfolding start_bound end_bound read_to
  read st from to = do
    from_idx ← start_bound from
    to_idx ← end_bound st to
    len ← get_log_len st
    last ← sub_u64 to_idx 1
    read_to st from_idx to_idx st.trimmed_idx len (get_entry_type st last st.trimmed_idx len)

  unfoldable pub read_decided_suffix :
      MemoryStorage T S → ℕ → Outcome (Option (List (LogEntry T S)))
  read_decided_suffix st from_idx =
      if ltb from_idx st.ld then read st (included from_idx) (excluded st.ld) else done none
