-- ===== src/Storage/Read/Labels.antt =====
-- omnipaxos_core/src/storage.rs: the labels of the entries that `InternalStorage` reads.
use ik2203_distributed_coord.Prelude.{
  ℕ, suc, ltb, if◌then◌else◌, ◌+◌, ◌-◌, ◌≤◌, ◌<◌, ◌≡◌, refl, some, List, [], ◌∷◌, map, arith,
  control, length, zero, take, get_elem?, lt_of_get_elem?, le→ltb, lt→ltb, le→leb, drop, done,
  u64_mod,
}
use ik2203_distributed_coord.Storage.Memory.{MemoryStorage, get_entries}
use ik2203_distributed_coord.Storage.Internal as I
use ik2203_distributed_coord.Storage.Read.{
  LogEntry, decided, undecided, entry, included, excluded, get_entry_type, label_from,
  create_read_log_entries_with_real_idx, start_bound, end_bound, read_between, read_from, read_to,
  read,
}

take-one-drop :
    {T : Type 0} (i : ℕ) (xs : List T) (e : T)
    → get_elem? xs i ≡ some e
    → take 1 (drop i xs) ≡ e ∷ []
take-one-drop i [] e g = cc
take-one-drop zero (x ∷ xs) e g = cc
take-one-drop (suc i) (x ∷ xs) e g = take-one-drop i xs e g

module _ {T S : Type 0} where
  -- Entries up to and with the decided index are labelled as decided.
  pub label_from-decided :
      (es : List T) (i c d : ℕ)
      → i + length es + c ≤ d + 1
      → label_from {S = S} i c d es ≡ map decided es
  unfolding label_from control
  label_from-decided [] i c d h = refl
  label_from-decided (e ∷ es) i c d h =
      rw (le→ltb d (i + c) (omega arith), label_from-decided es (i + 1) c d (omega arith))

  -- The test of the label, for a range of one entry: it is on the compacted index.
  abbrev pub label_of_one : MemoryStorage T S → T → LogEntry T S
  label_of_one st e = if ltb st.ld st.trimmed_idx then undecided e else decided e

  read_from_one :
      (st : MemoryStorage T S) (idx : ℕ) (e : T)
      → st.trimmed_idx ≤ idx
      → get_elem? st.log (idx - st.trimmed_idx) ≡ some e
      → read_from st idx
          (idx + 1)
          st.trimmed_idx
          entry
          (get_entry_type st idx st.trimmed_idx (length st.log + st.trimmed_idx))
        ≡ done (some (label_of_one st e ∷ []))
  unfolding read_from read_between get_entry_type create_read_log_entries_with_real_idx get_entries
      label_from control
  read_from_one st idx e p g =
      let r = lt_of_get_elem? st.log (idx - st.trimmed_idx) e g in
      rw (
        le→ltb idx st.trimmed_idx p,
        lt→ltb idx (length st.log + st.trimmed_idx) (omega arith),
        le→leb st.trimmed_idx idx p,
        le→leb st.trimmed_idx (idx + 1) (omega arith),
        le→leb (idx - st.trimmed_idx) (idx + 1 - st.trimmed_idx) (omega arith),
        le→leb (idx + 1 - st.trimmed_idx) (length st.log) (omega arith),
        one_apart,
        take-one-drop (idx - st.trimmed_idx) st.log e g,
        first,
      )
    where
      first : 0 + st.trimmed_idx ≡ st.trimmed_idx
      first = omega arith

      one_apart : idx + 1 - st.trimmed_idx - (idx - st.trimmed_idx) ≡ 1
      one_apart = omega arith

  -- Reading the one entry at an index that is in the log and not compacted returns it, and labels it
  -- as undecided exactly when the compacted index is above the decided one: the label does not depend
  -- on whether that entry is decided. The end of the log is short of 2^64.
  pub read-one :
      (st : MemoryStorage T S) (idx : ℕ) (e : T)
      → length st.log + st.trimmed_idx < u64_mod
      → st.trimmed_idx ≤ idx
      → get_elem? st.log (idx - st.trimmed_idx) ≡ some e
      → read st (included idx) (excluded (idx + 1))
        ≡ done (some ((if ltb st.ld st.trimmed_idx then undecided e else decided e) ∷ []))
  unfolding read start_bound end_bound read_to I.get_log_len get_entry_type control
  read-one st idx e u p g =
      let r = lt_of_get_elem? st.log (idx - st.trimmed_idx) e g in
      rw
        (
          lt→ltb (length st.log + st.trimmed_idx) u64_mod u,
          le→leb 1 (idx + 1) (omega arith),
          back,
          le→ltb idx st.trimmed_idx p,
          lt→ltb idx (length st.log + st.trimmed_idx) (omega arith),
        )
        (read_from_one st idx e p g)
    where
      back : idx + 1 - 1 ≡ idx
      back = omega arith
