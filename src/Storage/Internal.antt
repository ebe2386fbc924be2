-- ===== src/Storage/Internal.antt =====
-- omnipaxos_core/src/storage.rs: the writing half of `InternalStorage`, which hides the compacted
-- index. The wrapper has the storage as its one field, so its methods are functions of the storage.
-- Index arithmetic is checked, as in a debug build.
use ik2203_distributed_coord.Prelude.{
  ℕ, Option, none, some, List, length, ltb, leb, if◌then◌else◌, Outcome, done, ◌>>=◌, add_u64,
  sub_u64,
}
use ik2203_distributed_coord.Ballot.{Ballot}
use ik2203_distributed_coord.Storage.{
  StopSignEntry, SnapshotType, delta, Snapshot, CompactionErr, undecided_index, Result, ok, err,
}
use ik2203_distributed_coord.Storage.Memory.{MemoryStorage}
use ik2203_distributed_coord.Storage.Memory as M

module _ {T S : Type 0} where
  unfoldable pub append_entry : MemoryStorage T S → T → Outcome (MemoryStorage T S × ℕ)
  append_entry st entry = do
    let r = M.append_entry st entry
    idx ← add_u64 r.1 r.0.trimmed_idx
    done (r.0, idx)

  unfoldable pub append_entries : MemoryStorage T S → List T → Outcome (MemoryStorage T S × ℕ)
  append_entries st entries = do
    let r = M.append_entries st entries
    idx ← add_u64 r.1 r.0.trimmed_idx
    done (r.0, idx)

  unfoldable pub append_on_prefix : MemoryStorage T S → ℕ → List T → Outcome (MemoryStorage T S × ℕ)
  append_on_prefix st from_idx entries = do
    from ← sub_u64 from_idx st.trimmed_idx
    let r = M.append_on_prefix st from entries
    idx ← add_u64 r.1 st.trimmed_idx
    done (r.0, idx)

  unfoldable pub append_on_decided_prefix :
      MemoryStorage T S → List T → Outcome (MemoryStorage T S × ℕ)
  append_on_decided_prefix st entries = do
    from ← sub_u64 st.ld st.trimmed_idx
    let r = M.append_on_prefix st from entries
    idx ← add_u64 r.1 st.trimmed_idx
    done (r.0, idx)

  -- `set_promise`, `set_decided_idx`, `set_accepted_round`, `set_stopsign`
  abbrev pub set_promise : MemoryStorage T S → Ballot → MemoryStorage T S
  set_promise st n_prom = record st { n_prom = n_prom }

  abbrev pub set_decided_idx : MemoryStorage T S → ℕ → MemoryStorage T S
  set_decided_idx st ld = record st { ld = ld }

  abbrev pub set_accepted_round : MemoryStorage T S → Ballot → MemoryStorage T S
  set_accepted_round st na = record st { acc_round = na }

  abbrev pub set_stopsign : MemoryStorage T S → StopSignEntry → MemoryStorage T S
  set_stopsign st s = record st { stopsign = some s }

  -- The length of the log as if it was never compacted.
  unfoldable pub get_log_len : MemoryStorage T S → Outcome ℕ
  get_log_len st = add_u64 (length st.log) st.trimmed_idx

  unfoldable pub get_entries : MemoryStorage T S → ℕ → ℕ → Outcome (List T)
  get_entries st from to = do
    f ← sub_u64 from st.trimmed_idx
    t ← sub_u64 to st.trimmed_idx
    done (M.get_entries st f t)

  unfoldable pub get_suffix : MemoryStorage T S → ℕ → Outcome (List T)
  get_suffix st from = do f ← sub_u64 from st.trimmed_idx; done (M.get_suffix st f)

  unfoldable pub set_snapshot : MemoryStorage T S → ℕ → S → Outcome (MemoryStorage T S)
  set_snapshot st idx snapshot =
      if ltb st.trimmed_idx idx
      then (do
        n ← sub_u64 idx st.trimmed_idx
        st' ← M.trim st n
        done (record st' { snapshot = some snapshot; trimmed_idx = idx }))
      else done st

  unfoldable pub try_trim :
      MemoryStorage T S → ℕ → Outcome (MemoryStorage T S × Result Unit CompactionErr)
  try_trim st idx =
      if leb idx st.trimmed_idx
      then done (st, ok tt)
      else if leb idx st.ld
      then (do
        n ← sub_u64 idx st.trimmed_idx
        st' ← M.trim st n
        done (record st' { trimmed_idx = idx }, ok tt))
      else done (st, err (undecided_index st.ld))

  -- the index that `try_snapshot` goes up to, or its error
  unfoldable pub snapshot_target : MemoryStorage T S → Option ℕ → Result ℕ CompactionErr
  snapshot_target st none = ok st.ld
  snapshot_target st (some i) = if leb i st.ld then ok i else err (undecided_index st.ld)

  unfoldable pub merge_with : Snapshot T S → Option S → S → Outcome S
  merge_with snap none d = done d
  merge_with snap (some s) d = snap.merge s d

  module _ ⦃snap : Snapshot T S⦄ where
    unfoldable pub create_snapshot : MemoryStorage T S → ℕ → Outcome S
    unfolding merge_with
    create_snapshot st compact_idx = do
      n ← sub_u64 compact_idx st.trimmed_idx
      d ← snap.create (M.get_entries st 0 n)
      merge_with snap st.snapshot d

    unfoldable pub create_diff_snapshot : MemoryStorage T S → ℕ → ℕ → Outcome (SnapshotType S)
    create_diff_snapshot st from_idx to_idx = do
      diff_entries ← get_entries st from_idx to_idx
      s ← snap.create diff_entries
      done (delta s)

    unfoldable pub stored_or_new : MemoryStorage T S → Option S → Outcome S
    stored_or_new st (some s) = done s
    stored_or_new st none = create_snapshot st (length st.log)

    unfoldable pub merge_snapshot : MemoryStorage T S → ℕ → S → Outcome (MemoryStorage T S)
    unfolding stored_or_new
    merge_snapshot st idx d = do
      s ← stored_or_new st st.snapshot
      s' ← snap.merge s d
      set_snapshot st idx s'

    unfoldable pub take_snapshot :
        MemoryStorage T S
        → Result ℕ CompactionErr
        → Outcome (MemoryStorage T S × Result Unit CompactionErr)
    take_snapshot st (err e) = done (st, err e)
    take_snapshot st (ok idx) =
        if ltb st.trimmed_idx idx
        then (do s ← create_snapshot st idx; st' ← set_snapshot st idx s; done (st', ok tt))
        else done (st, ok tt)

    unfoldable pub try_snapshot :
        MemoryStorage T S → Option ℕ → Outcome (MemoryStorage T S × Result Unit CompactionErr)
    unfolding snapshot_target take_snapshot
    try_snapshot st snapshot_idx = take_snapshot st (snapshot_target st snapshot_idx)
