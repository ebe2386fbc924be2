-- ===== src/Storage/Persistent/Refines.antt =====
-- omnipaxos_storage/src/persistent_storage.rs: `PersistentStorage` beside `MemoryStorage`: what is asked of the
-- crates, and the calls that set a value.
use ik2203_distributed_coord.Prelude.{
  ℕ, suc, ◌+◌, ◌<◌, ◌≡◌, ◌≢◌, refl, sym, ◌∙◌, ap, arith, List, [], ◌∷◌, ◌++◌, map, length,
  length-append, take, control, Option, some, done,
}
use mathlib.Core.List.{map-append}
use ik2203_distributed_coord.Ballot.{Ballot, default}
use ik2203_distributed_coord.Storage.{StopSignEntry}
use ik2203_distributed_coord.Storage.Memory.{MemoryStorage}
use ik2203_distributed_coord.Storage.Memory
use ik2203_distributed_coord.Storage.Persistent.{
  Key, nprom, acc, decide, trimmed, Crates, BallotStorage, StopSignEntryStorage,
  ballot_storage_with, stopsign_entry_storage_with, read_ballot, read_stopsign, PersistentStorage,
  or_default, or_none, append_entries, put, get_promise, set_promise, get_decided_idx,
  set_decided_idx, get_accepted_round, set_accepted_round, get_compacted_idx, set_compacted_idx,
  get_stopsign, set_stopsign, get_snapshot, set_snapshot,
}

pub length-map : {A : Type 0} (f : A → List ℕ) (xs : List A) → length (map f xs) ≡ length xs
length-map f [] = refl
length-map f (x ∷ xs) = ap suc (length-map f xs)

module _ {T S Log Db : Type 0} where
  -- What the code relies on: the commit log is a list of messages, the database a map, and the
  -- conversions to bytes are read back. Truncating the commit log keeps the message at the offset
  -- given; of the offsets returned for no message nothing is asked.
  pub record Behaves (c : Crates T S Log Db) : Type 0 where
    pub contents : Log → List (List ℕ)
    pub append_contents :
        (l : Log) (ms : List (List ℕ)) → contents (c.append l ms).0 ≡ contents l ++ ms
    pub append_first :
        (l : Log) (m : List ℕ) (ms : List (List ℕ))
        → (c.append l (m ∷ ms)).1.0 ≡ length (contents l)
    pub append_count :
        (l : Log) (m : List ℕ) (ms : List (List ℕ)) → (c.append l (m ∷ ms)).1.1 ≡ suc (length ms)
    pub truncate_contents :
        (l : Log) (n : ℕ) → contents (c.truncate l n) ≡ take (n + 1) (contents l)
    pub next_offset_contents : (l : Log) → c.next_offset l ≡ length (contents l)
    pub new_contents : contents c.new_log ≡ []
    pub get_same : (d : Db) (k : Key) (b : List ℕ) → c.get (c.insert d k b) k ≡ some b
    pub get_other :
        (d : Db) (k k' : Key) (b : List ℕ) → k ≢ k' → c.get (c.insert d k b) k' ≡ c.get d k'
    pub entry_reads : (e : T) → c.entry_from (c.entry_bytes e) ≡ some e
    pub ballot_reads : (b : BallotStorage) → c.ballot_from (c.ballot_bytes b) ≡ some b
    pub u64_reads : (n : ℕ) → c.u64_from (c.u64_bytes n) ≡ some n
    pub stopsign_reads : (s : StopSignEntryStorage) → c.stopsign_from (c.stopsign_bytes s) ≡ some s
    pub snapshot_reads : (s : S) → c.snapshot_from (c.snapshot_bytes s) ≡ some s

module _ {T S Log Db : Type 0} (c : Crates T S Log Db) (b : Behaves c) where
  -- The persistent storage holds what the storage in memory does.
  pub record Shows (p : PersistentStorage Log Db) (m : MemoryStorage T S) : Type 0 where
    pub log : b.contents p.commitlog ≡ map c.entry_bytes m.log
    pub n_prom : get_promise c p ≡ done m.n_prom
    pub acc_round : get_accepted_round c p ≡ done m.acc_round
    pub ld : get_decided_idx c p ≡ done m.ld
    pub trimmed_idx : get_compacted_idx c p ≡ done m.trimmed_idx
    pub stopsign : get_stopsign c p ≡ done m.stopsign
    pub snapshot : get_snapshot c p ≡ done m.snapshot

  -- A commit log with other contents.
  pub Shows-log :
      (p : PersistentStorage Log Db) (m : MemoryStorage T S) (l : Log) (entries : List T)
      → Shows p m
      → b.contents l ≡ map c.entry_bytes entries
      → Shows (record p { commitlog = l }) (record m { log = entries })
  unfolding get_promise get_accepted_round get_decided_idx get_compacted_idx get_stopsign
      get_snapshot
  Shows-log p m l entries h e = record {
    log = e;
    n_prom = h.n_prom;
    acc_round = h.acc_round;
    ld = h.ld;
    trimmed_idx = h.trimmed_idx;
    stopsign = h.stopsign;
    snapshot = h.snapshot;
  }

  pub length-contents :
      (p : PersistentStorage Log Db) (m : MemoryStorage T S)
      → Shows p m
      → length (b.contents p.commitlog) ≡ length m.log
  length-contents p m h = ap (length {A = List ℕ}) h.log ∙ length-map c.entry_bytes m.log

  pub append_entries-Shows :
      (p : PersistentStorage Log Db) (m : MemoryStorage T S) (entries : List T)
      → Shows p m
      → Shows (append_entries c p entries).0 (Memory.append_entries m entries).0
  unfolding append_entries Memory.append_entries
  append_entries-Shows p m entries h = Shows-log p m _ (m.log ++ entries) h (
      b.append_contents p.commitlog (map c.entry_bytes entries)
      ∙ ap (λ x. x ++ map c.entry_bytes entries) h.log
      ∙ sym (map-append c.entry_bytes m.log entries))

  -- Where there is an entry to append, both return the new length of the log.
  pub append_entries-value :
      (p : PersistentStorage Log Db) (m : MemoryStorage T S) (entries : List T)
      → Shows p m
      → 0 < length entries
      → (append_entries c p entries).1 ≡ (Memory.append_entries m entries).1
  unfolding append_entries Memory.append_entries
  append_entries-value p m [] h l = absurd (omega (arith, l))
  append_entries-value p m (e ∷ entries) h l = omega (
    arith,
    b.append_first p.commitlog (c.entry_bytes e) (map c.entry_bytes entries),
    b.append_count p.commitlog (c.entry_bytes e) (map c.entry_bytes entries),
    length-contents p m h,
    length-map c.entry_bytes entries,
    length-append m.log (e ∷ entries),
  )

  -- A key that is written leaves what is read of the others.
  put-default :
      {A : Type 0} (p : PersistentStorage Log Db) (k k' : Key) (bytes : List ℕ) (a v : A)
      (from : List ℕ → Option A)
      → k ≢ k'
      → or_default a from (c.get p.database k') ≡ done v
      → or_default a from (c.get (put c p k bytes).database k') ≡ done v
  unfolding put
  put-default p k k' bytes a v from n h =
      ap (or_default a from) (b.get_other p.database k k' bytes n) ∙ h

  put-none :
      {A : Type 0} (p : PersistentStorage Log Db) (k k' : Key) (bytes : List ℕ) (v : Option A)
      (from : List ℕ → Option A)
      → k ≢ k'
      → or_none from (c.get p.database k') ≡ done v
      → or_none from (c.get (put c p k bytes).database k') ≡ done v
  unfolding put
  put-none p k k' bytes v from n h = ap (or_none from) (b.get_other p.database k k' bytes n) ∙ h

  pub set_promise-Shows :
      (p : PersistentStorage Log Db) (m : MemoryStorage T S) (x : Ballot)
      → Shows p m
      → Shows (set_promise c p x) (record m { n_prom = x })
  unfolding set_promise get_promise get_accepted_round get_decided_idx get_compacted_idx
      get_stopsign get_snapshot control
  set_promise-Shows p m x h = record {
    log = h.log;
    n_prom =
        rw
          (
            b.get_same p.database nprom (c.ballot_bytes (ballot_storage_with x)),
            b.ballot_reads (ballot_storage_with x),
          )
          refl;
    acc_round =
        put-default p nprom acc _ default m.acc_round (read_ballot c) (λ q. cc q) h.acc_round;
    ld = put-default p nprom decide _ 0 m.ld c.u64_from (λ q. cc q) h.ld;
    trimmed_idx =
        put-default p nprom trimmed _ 0 m.trimmed_idx c.u64_from (λ q. cc q) h.trimmed_idx;
    stopsign = put-none p nprom Key.stopsign _ m.stopsign (read_stopsign c) (λ q. cc q) h.stopsign;
    snapshot = put-none p nprom Key.snapshot _ m.snapshot c.snapshot_from (λ q. cc q) h.snapshot;
  }

  pub set_accepted_round-Shows :
      (p : PersistentStorage Log Db) (m : MemoryStorage T S) (x : Ballot)
      → Shows p m
      → Shows (set_accepted_round c p x) (record m { acc_round = x })
  unfolding set_accepted_round get_promise get_accepted_round get_decided_idx get_compacted_idx
      get_stopsign get_snapshot control
  set_accepted_round-Shows p m x h = record {
    log = h.log;
    n_prom = put-default p acc nprom _ default m.n_prom (read_ballot c) (λ q. cc q) h.n_prom;
    acc_round =
        rw
          (
            b.get_same p.database acc (c.ballot_bytes (ballot_storage_with x)),
            b.ballot_reads (ballot_storage_with x),
          )
          refl;
    ld = put-default p acc decide _ 0 m.ld c.u64_from (λ q. cc q) h.ld;
    trimmed_idx = put-default p acc trimmed _ 0 m.trimmed_idx c.u64_from (λ q. cc q) h.trimmed_idx;
    stopsign = put-none p acc Key.stopsign _ m.stopsign (read_stopsign c) (λ q. cc q) h.stopsign;
    snapshot = put-none p acc Key.snapshot _ m.snapshot c.snapshot_from (λ q. cc q) h.snapshot;
  }

  pub set_decided_idx-Shows :
      (p : PersistentStorage Log Db) (m : MemoryStorage T S) (x : ℕ)
      → Shows p m
      → Shows (set_decided_idx c p x) (record m { ld = x })
  unfolding set_decided_idx get_promise get_accepted_round get_decided_idx get_compacted_idx
      get_stopsign get_snapshot control
  set_decided_idx-Shows p m x h = record {
    log = h.log;
    n_prom = put-default p decide nprom _ default m.n_prom (read_ballot c) (λ q. cc q) h.n_prom;
    acc_round =
        put-default p decide acc _ default m.acc_round (read_ballot c) (λ q. cc q) h.acc_round;
    ld = rw (b.get_same p.database decide (c.u64_bytes x), b.u64_reads x) refl;
    trimmed_idx =
        put-default p decide trimmed _ 0 m.trimmed_idx c.u64_from (λ q. cc q) h.trimmed_idx;
    stopsign = put-none p decide Key.stopsign _ m.stopsign (read_stopsign c) (λ q. cc q) h.stopsign;
    snapshot = put-none p decide Key.snapshot _ m.snapshot c.snapshot_from (λ q. cc q) h.snapshot;
  }

  pub set_compacted_idx-Shows :
      (p : PersistentStorage Log Db) (m : MemoryStorage T S) (x : ℕ)
      → Shows p m
      → Shows (set_compacted_idx c p x) (record m { trimmed_idx = x })
  unfolding set_compacted_idx get_promise get_accepted_round get_decided_idx get_compacted_idx
      get_stopsign get_snapshot control
  set_compacted_idx-Shows p m x h = record {
    log = h.log;
    n_prom = put-default p trimmed nprom _ default m.n_prom (read_ballot c) (λ q. cc q) h.n_prom;
    acc_round =
        put-default p trimmed acc _ default m.acc_round (read_ballot c) (λ q. cc q) h.acc_round;
    ld = put-default p trimmed decide _ 0 m.ld c.u64_from (λ q. cc q) h.ld;
    trimmed_idx = rw (b.get_same p.database trimmed (c.u64_bytes x), b.u64_reads x) refl;
    stopsign =
        put-none p trimmed Key.stopsign _ m.stopsign (read_stopsign c) (λ q. cc q) h.stopsign;
    snapshot = put-none p trimmed Key.snapshot _ m.snapshot c.snapshot_from (λ q. cc q) h.snapshot;
  }

  pub set_stopsign-Shows :
      (p : PersistentStorage Log Db) (m : MemoryStorage T S) (x : StopSignEntry)
      → Shows p m
      → Shows (set_stopsign c p x) (record m { stopsign = some x })
  unfolding set_stopsign get_promise get_accepted_round get_decided_idx get_compacted_idx
      get_stopsign get_snapshot control
  set_stopsign-Shows p m x h = record {
    log = h.log;
    n_prom =
        put-default p Key.stopsign nprom _ default m.n_prom (read_ballot c) (λ q. cc q) h.n_prom;
    acc_round =
        put-default p Key.stopsign acc _ default m.acc_round (read_ballot c) (λ q. cc q)
          h.acc_round;
    ld = put-default p Key.stopsign decide _ 0 m.ld c.u64_from (λ q. cc q) h.ld;
    trimmed_idx =
        put-default p Key.stopsign trimmed _ 0 m.trimmed_idx c.u64_from (λ q. cc q) h.trimmed_idx;
    stopsign =
        rw
          (
            b.get_same p.database Key.stopsign (c.stopsign_bytes (stopsign_entry_storage_with x)),
            b.stopsign_reads (stopsign_entry_storage_with x),
          )
          refl;
    snapshot =
        put-none p Key.stopsign Key.snapshot _ m.snapshot c.snapshot_from (λ q. cc q) h.snapshot;
  }

  pub set_snapshot-Shows :
      (p : PersistentStorage Log Db) (m : MemoryStorage T S) (x : S)
      → Shows p m
      → Shows (set_snapshot c p x) (record m { snapshot = some x })
  unfolding set_snapshot get_promise get_accepted_round get_decided_idx get_compacted_idx
      get_stopsign get_snapshot control
  set_snapshot-Shows p m x h = record {
    log = h.log;
    n_prom =
        put-default p Key.snapshot nprom _ default m.n_prom (read_ballot c) (λ q. cc q) h.n_prom;
    acc_round =
        put-default p Key.snapshot acc _ default m.acc_round (read_ballot c) (λ q. cc q)
          h.acc_round;
    ld = put-default p Key.snapshot decide _ 0 m.ld c.u64_from (λ q. cc q) h.ld;
    trimmed_idx =
        put-default p Key.snapshot trimmed _ 0 m.trimmed_idx c.u64_from (λ q. cc q) h.trimmed_idx;
    stopsign =
        put-none p Key.snapshot Key.stopsign _ m.stopsign (read_stopsign c) (λ q. cc q) h.stopsign;
    snapshot =
        rw (b.get_same p.database Key.snapshot (c.snapshot_bytes x), b.snapshot_reads x) refl;
  }
