-- ===== src/Storage/Read/Trimmed.antt =====
-- omnipaxos_core/src/storage.rs: what a compaction of `InternalStorage` leaves.
use ik2203_distributed_coord.Prelude.{
  ℕ, ◌+◌, ◌-◌, ◌≤◌, ◌<◌, ◌≡◌, refl, arith, control, length, le→leb, leb→lt, Bool-cases, inl, inr,
  drop, leb, length-drop, done, drop-drop,
}
use ik2203_distributed_coord.Storage.{ok}
use ik2203_distributed_coord.Storage.Memory.{MemoryStorage, get_suffix, trim}
use ik2203_distributed_coord.Storage.Internal as I
use ik2203_distributed_coord.Storage.Read.Suffix.{IsStored}

module _ {T S : Type 0} where
  abbrev trimmed_to : MemoryStorage T S → ℕ → MemoryStorage T S
  trimmed_to st idx = record st { log = drop (idx - st.trimmed_idx) st.log; trimmed_idx = idx }

  module _ (st : MemoryStorage T S) (idx : ℕ) (h : IsStored st) (p : idx ≤ st.ld)
      (q : st.trimmed_idx < idx) where
    length-trimmed :
        length (drop (idx - st.trimmed_idx) st.log) + idx ≡ length st.log + st.trimmed_idx
    length-trimmed = omega (arith, length-drop (idx - st.trimmed_idx) st.log, h.decided_stored)

    trimmed_to-IsStored : IsStored (trimmed_to st idx)
    trimmed_to-IsStored = record {
      trimmed_decided = p;
      decided_stored = omega (arith, h.decided_stored, length-trimmed);
      in_u64 = omega (arith, h.in_u64, length-trimmed);
    }

    get_suffix-trimmed :
        (from : ℕ) → idx ≤ from → I.get_suffix (trimmed_to st idx) from ≡ I.get_suffix st from
    unfolding I.get_suffix get_suffix control
    get_suffix-trimmed from r =
        let same_index : idx - st.trimmed_idx + (from - idx) ≡ from - st.trimmed_idx =
          omega arith in
        let same_test : leb (from - idx) (length (drop (idx - st.trimmed_idx) st.log))
            ≡ leb (from - st.trimmed_idx) (length st.log) =
          ground (arith, length-trimmed) in
        rw (
          le→leb idx from r,
          le→leb st.trimmed_idx from (omega arith),
          drop-drop (from - idx) (idx - st.trimmed_idx) st.log,
          same_index,
          same_test,
        )

  -- `try_trim` up to a decided index succeeds and keeps the length of the log and each suffix from that
  -- index on.
  try_trim-keeps :
      (st : MemoryStorage T S) (idx : ℕ)
      → IsStored st
      → idx ≤ st.ld
      → (st' : MemoryStorage T S) × (I.try_trim st idx ≡ done (st', ok tt))
        × IsStored st'
        × (I.get_log_len st' ≡ I.get_log_len st)
        × ((from : ℕ) → idx ≤ from → I.get_suffix st' from ≡ I.get_suffix st from)
  unfolding I.try_trim I.get_log_len trim control
  try_trim-keeps st idx h p = elim (Bool-cases (leb idx st.trimmed_idx)) [
    | inl e ↦ (st, rw e, h, refl, λ from r. refl)
    | inr e ↦
        let q = leb→lt idx st.trimmed_idx e in
        (
          trimmed_to st idx,
          rw (
            e,
            le→leb idx st.ld p,
            le→leb st.trimmed_idx idx (omega arith),
            le→leb (idx - st.trimmed_idx) (length st.log) (omega (arith, h.decided_stored)),
          ),
          trimmed_to-IsStored st idx h p q,
          rw (length-trimmed st idx h p q),
          get_suffix-trimmed st idx h p q,
        )
  ]
