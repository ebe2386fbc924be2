-- ===== src/Storage/Persistent/Simulation.antt =====
-- omnipaxos_storage/src/persistent_storage.rs: all calls that write, on a `PersistentStorage` and on a
-- `MemoryStorage`.
use ik2203_distributed_coord.Prelude.{
  ℕ, ◌≤◌, ◌<◌, ◌≡◌, refl, sym, ap, List, length, control, some, Outcome, done, ◌>>=◌,
}
use ik2203_distributed_coord.Ballot.{Ballot}
use ik2203_distributed_coord.Storage.{StopSignEntry}
use ik2203_distributed_coord.Storage.Memory.{MemoryStorage}
use ik2203_distributed_coord.Storage.Memory
use ik2203_distributed_coord.Storage.Persistent.{
  Crates, PersistentStorage, append_entry, append_entries, append_on_prefix, set_promise,
  set_decided_idx, set_accepted_round, set_compacted_idx, set_stopsign, set_snapshot, trim,
}
use ik2203_distributed_coord.Storage.Persistent.Refines.{
  Behaves, Shows, append_entries-Shows, append_entries-value, set_promise-Shows,
  set_accepted_round-Shows, set_decided_idx-Shows, set_compacted_idx-Shows, set_stopsign-Shows,
  set_snapshot-Shows,
}
use ik2203_distributed_coord.Storage.Persistent.Calls.{
  ReadsAll, append_entry-Shows, append_on_prefix-Shows, trim-Shows,
}

-- the calls of the trait `Storage` that write
pub data Call (T S : Type 0) : Type 0 where
  append : T → Call T S
  append_all : List T → Call T S
  append_from : ℕ → List T → Call T S
  promise : Ballot → Call T S
  accept_round : Ballot → Call T S
  decide_idx : ℕ → Call T S
  compact_idx : ℕ → Call T S
  stop : StopSignEntry → Call T S
  take_snapshot : S → Call T S
  trim_to : ℕ → Call T S

-- A call on either storage, with the value it returns, 0 where it returns none.
module _ {T S Log Db : Type 0} (c : Crates T S Log Db) where
  unfoldable pub persistent_call :
      Call T S → PersistentStorage Log Db → Outcome (PersistentStorage Log Db × ℕ)
  unfolding append_entry append_entries append_on_prefix set_promise set_accepted_round
      set_decided_idx set_compacted_idx set_stopsign set_snapshot trim
  persistent_call (append e) p = done (append_entry c p e)
  persistent_call (append_all es) p = done (append_entries c p es)
  persistent_call (append_from n es) p = done (append_on_prefix c p n es)
  persistent_call (promise x) p = done (set_promise c p x, 0)
  persistent_call (accept_round x) p = done (set_accepted_round c p x, 0)
  persistent_call (decide_idx x) p = done (set_decided_idx c p x, 0)
  persistent_call (compact_idx x) p = done (set_compacted_idx c p x, 0)
  persistent_call (stop x) p = done (set_stopsign c p x, 0)
  persistent_call (take_snapshot x) p = done (set_snapshot c p x, 0)
  persistent_call (trim_to n) p = do p' ← trim c p n; done (p', 0)

module _ {T S : Type 0} where
  unfoldable pub memory_call : Call T S → MemoryStorage T S → Outcome (MemoryStorage T S × ℕ)
  memory_call (append e) m = done (Memory.append_entry m e)
  memory_call (append_all es) m = done (Memory.append_entries m es)
  memory_call (append_from n es) m = done (Memory.append_on_prefix m n es)
  memory_call (promise x) m = done (record m { n_prom = x }, 0)
  memory_call (accept_round x) m = done (record m { acc_round = x }, 0)
  memory_call (decide_idx x) m = done (record m { ld = x }, 0)
  memory_call (compact_idx x) m = done (record m { trimmed_idx = x }, 0)
  memory_call (stop x) m = done (record m { stopsign = some x }, 0)
  memory_call (take_snapshot x) m = done (record m { snapshot = some x }, 0)
  memory_call (trim_to n) m = do m' ← Memory.trim m n; done (m', 0)

module _ {T S Log Db : Type 0} (c : Crates T S Log Db) (b : Behaves c) where
  -- There is an entry to append, where a list is; the prefix is the whole log; the log is as long as
  -- what is trimmed, and can be read from there.
  abbrev pub IsAllowed : Call T S → PersistentStorage Log Db → MemoryStorage T S → Type 0
  IsAllowed (append_all es) p m = 0 < length es
  IsAllowed (append_from n es) p m = (length m.log ≤ n) × (0 < length es)
  IsAllowed (trim_to n) p m = (n ≤ length m.log) × ReadsAll c b p.commitlog n
  IsAllowed _ p m = Unit

  -- Both calls return, the same value, and the persistent storage shows the other again.
  pub record Agree (x : Outcome (PersistentStorage Log Db × ℕ))
      (y : Outcome (MemoryStorage T S × ℕ)) : Type 0 where
    pub persistent : PersistentStorage Log Db
    pub memory : MemoryStorage T S
    pub value : ℕ
    pub persistent_returns : x ≡ done (persistent, value)
    pub memory_returns : y ≡ done (memory, value)
    pub shows : Shows c b persistent memory

  Agree-both :
      (r : PersistentStorage Log Db × ℕ) (s : MemoryStorage T S × ℕ)
      → Shows c b r.0 s.0
      → r.1 ≡ s.1
      → Agree (done r) (done s)
  Agree-both (p, v) (m, w) h e = record {
    persistent = p;
    memory = m;
    value = v;
    persistent_returns = refl;
    memory_returns = ap (λ x. done (m, x)) (sym e);
    shows = h;
  }

  -- Where the persistent storage holds what the storage in memory does, a call of the trait
  -- `Storage` that writes has both return, the same value, and leaves them so. A list that is
  -- appended is not empty; appending on a prefix has the prefix as long as the log; trimming has
  -- the log at least as long, and the commit log hands out all that follows; and the crates do as
  -- they say.
  pub persistent_call-refines :
      (call : Call T S) (p : PersistentStorage Log Db) (m : MemoryStorage T S)
      → Shows c b p m
      → IsAllowed call p m
      → Agree (persistent_call c call p) (memory_call call m)
  unfolding persistent_call memory_call control
  persistent_call-refines (append e) p m h a =
      let (s, v) = append_entry-Shows c b p m e h in Agree-both _ _ s v
  persistent_call-refines (append_all es) p m h a =
      Agree-both _ _ (append_entries-Shows c b p m es h) (append_entries-value c b p m es h a)
  persistent_call-refines (append_from n es) p m h (l, k) =
      let (s, v) = append_on_prefix-Shows c b p m n es h l k in Agree-both _ _ s v
  persistent_call-refines (promise x) p m h a = Agree-both _ _ (set_promise-Shows c b p m x h) refl
  persistent_call-refines (accept_round x) p m h a =
      Agree-both _ _ (set_accepted_round-Shows c b p m x h) refl
  persistent_call-refines (decide_idx x) p m h a =
      Agree-both _ _ (set_decided_idx-Shows c b p m x h) refl
  persistent_call-refines (compact_idx x) p m h a =
      Agree-both _ _ (set_compacted_idx-Shows c b p m x h) refl
  persistent_call-refines (stop x) p m h a = Agree-both _ _ (set_stopsign-Shows c b p m x h) refl
  persistent_call-refines (take_snapshot x) p m h a =
      Agree-both _ _ (set_snapshot-Shows c b p m x h) refl
  persistent_call-refines (trim_to n) p m h (l, r) =
      let (p', m', e, f, s) = trim-Shows c b p m n h l r in
      rw (e, f) (Agree-both (p', 0) (m', 0) s refl)
