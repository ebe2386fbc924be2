-- ===== src/Storage/Frame.antt =====
-- What the writing operations of `InternalStorage` leave alone.
use ik2203_distributed_coord.Prelude.{
  ℕ, ◌≡◌, Option, List, arith, Ensures, Ensures-done, Ensures-bind, Ensures-bind_any, Ensures-if,
  control,
}
use ik2203_distributed_coord.Storage.{Snapshot, CompactionErr, Result, ok, err}
use ik2203_distributed_coord.Storage.Memory.{MemoryStorage}
use ik2203_distributed_coord.Storage.Memory as M
use ik2203_distributed_coord.Storage.Internal.{
  append_entry, append_entries, append_on_prefix, append_on_decided_prefix, set_snapshot, try_trim,
  merge_snapshot, try_snapshot, take_snapshot, snapshot_target,
}

module _ {T S : Type 0} where
  -- The rounds, the decided index and the StopSign are those of before.
  pub record SameRounds (st st' : MemoryStorage T S) : Type 0 where
    pub n_prom : st'.n_prom ≡ st.n_prom
    pub acc_round : st'.acc_round ≡ st.acc_round
    pub ld : st'.ld ≡ st.ld
    pub stopsign : st'.stopsign ≡ st.stopsign

  SameRounds-refl : (st : MemoryStorage T S) → SameRounds st st
  SameRounds-refl st = ground arith

  pub append_entry-SameRounds :
      (st : MemoryStorage T S) (e : T) → Ensures (λ r. SameRounds st r.0) (append_entry st e)
  unfolding control append_entry M.append_entry
  append_entry-SameRounds st e = record { at = λ r h. ground arith }

  pub append_entries-SameRounds :
      (st : MemoryStorage T S) (es : List T)
      → Ensures (λ r. SameRounds st r.0) (append_entries st es)
  unfolding control append_entries M.append_entries
  append_entries-SameRounds st es = record { at = λ r h. ground arith }

  pub append_on_prefix-SameRounds :
      (st : MemoryStorage T S) (i : ℕ) (es : List T)
      → Ensures (λ r. SameRounds st r.0) (append_on_prefix st i es)
  unfolding control append_on_prefix M.append_on_prefix
  append_on_prefix-SameRounds st i es = record { at = λ r h. ground arith }

  pub append_on_decided_prefix-SameRounds :
      (st : MemoryStorage T S) (es : List T)
      → Ensures (λ r. SameRounds st r.0) (append_on_decided_prefix st es)
  unfolding control append_on_decided_prefix M.append_on_prefix
  append_on_decided_prefix-SameRounds st es = record { at = λ r h. ground arith }

  pub set_snapshot-SameRounds :
      (st : MemoryStorage T S) (i : ℕ) (x : S) → Ensures (SameRounds st) (set_snapshot st i x)
  unfolding control set_snapshot M.trim
  set_snapshot-SameRounds st i x = record { at = λ r h. ground arith }

  pub try_trim-SameRounds :
      (st : MemoryStorage T S) (i : ℕ) → Ensures (λ r. SameRounds st r.0) (try_trim st i)
  unfolding control try_trim M.trim
  try_trim-SameRounds st i = record { at = λ r h. ground arith }

  module _ ⦃snap : Snapshot T S⦄ where
    pub merge_snapshot-SameRounds :
        (st : MemoryStorage T S) (i : ℕ) (x : S) → Ensures (SameRounds st) (merge_snapshot st i x)
    unfolding merge_snapshot
    merge_snapshot-SameRounds st i x =
        Ensures-bind_any _ λ s e. Ensures-bind_any _ λ s' e'. set_snapshot-SameRounds st i s'

    take_snapshot-SameRounds :
        (st : MemoryStorage T S) (r : Result ℕ CompactionErr)
        → Ensures (λ r. SameRounds st r.0) (take_snapshot st r)
    unfolding take_snapshot
    take_snapshot-SameRounds st (ok idx) =
        Ensures-if _
          (λ e.
            Ensures-bind_any _
              λ s e'. Ensures-bind (set_snapshot-SameRounds st idx s) λ st' h. Ensures-done h)
          (λ e. Ensures-done (SameRounds-refl st))
    take_snapshot-SameRounds st (err e) = Ensures-done (SameRounds-refl st)

    pub try_snapshot-SameRounds :
        (st : MemoryStorage T S) (i : Option ℕ)
        → Ensures (λ r. SameRounds st r.0) (try_snapshot st i)
    unfolding try_snapshot
    try_snapshot-SameRounds st i = take_snapshot-SameRounds st (snapshot_target st i)
