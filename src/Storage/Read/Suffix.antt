-- ===== src/Storage/Read/Suffix.antt =====
-- omnipaxos_core/src/storage.rs: what `InternalStorage` returns for the decided suffix.
use ik2203_distributed_coord.Prelude.{
  ℕ, Option, none, false, ==_iff, leb→le, drop-all, take-all, ◌++◌, ltb, ◌==◌, if◌then◌else◌, ◌+◌,
  ◌-◌, ◌≤◌, ◌<◌, ◌≡◌, refl, ap, some, List, [], ◌∷◌, map, arith, control, length, take, le→ltb,
  lt→ltb, le→leb, leb→lt, Bool-cases, inl, inr, drop, leb, length-take, length-drop, done, u64_mod,
}
use ik2203_distributed_coord.Storage.{StopSign}
use ik2203_distributed_coord.Storage.Memory.{MemoryStorage, get_entries}
use ik2203_distributed_coord.Storage.Internal as I
use ik2203_distributed_coord.Storage.Read.{
  LogEntry, decided, IndexEntry, entry, decided_stopsign, get_entry_type,
  create_read_log_entries_with_real_idx, start_bound, end_bound, read_between, read_from, read_to,
  read, read_decided_suffix,
}
use ik2203_distributed_coord.Storage.Read.Labels.{label_from-decided}

-- The decided part is in the log, the compacted part is decided, and the indices are below the
-- overflow. A Decide may break it: the follower takes its index also when that is past its log.
pub record IsStored {T S : Type 0} (st : MemoryStorage T S) : Type 0 where
  pub trimmed_decided : st.trimmed_idx ≤ st.ld
  pub decided_stored : st.ld ≤ length st.log + st.trimmed_idx
  pub in_u64 : length st.log + st.trimmed_idx < u64_mod

past-== : (a b : ℕ) → b < a → (a == b) ≡ false
past-== a b h = ground arith

module _ {T S : Type 0} where
  read_from_entries :
      (st : MemoryStorage T S) (from : ℕ)
      → IsStored st
      → st.trimmed_idx ≤ from
      → from < st.ld
      → read_from st from st.ld st.trimmed_idx entry
          (get_entry_type st from st.trimmed_idx (length st.log + st.trimmed_idx))
        ≡ done (some (map decided (take (st.ld - from) (drop (from - st.trimmed_idx) st.log))))
  unfolding read_from read_between get_entry_type create_read_log_entries_with_real_idx get_entries
      control
  read_from_entries st from h p q =
      rw
        (
          le→ltb from st.trimmed_idx p,
          lt→ltb from (length st.log + st.trimmed_idx) (omega (arith, h.decided_stored)),
          le→leb st.trimmed_idx from p,
          le→leb st.trimmed_idx st.ld (omega arith),
          le→leb (from - st.trimmed_idx) (st.ld - st.trimmed_idx) (omega arith),
          le→leb (st.ld - st.trimmed_idx) (length st.log) (omega (arith, h.decided_stored)),
          label_from-decided
              (take (st.ld - st.trimmed_idx - (from - st.trimmed_idx))
                (drop (from - st.trimmed_idx) st.log))
              0 st.trimmed_idx st.ld
              (omega (
                arith,
                length-take (st.ld - st.trimmed_idx - (from - st.trimmed_idx))
                    (drop (from - st.trimmed_idx) st.log),
              )),
        )
        (ap (λ n. done (some (map decided (take n (drop (from - st.trimmed_idx) st.log)))))
          (omega arith))

  -- The entries from an index up to the decided one, labelled as decided.
  abbrev pub decided_entries : MemoryStorage T S → ℕ → List (LogEntry T S)
  decided_entries st from = map decided (take (st.ld - from) (drop (from - st.trimmed_idx) st.log))

  -- the rest of the log, labelled as decided, and behind it the StopSign if it is decided
  abbrev pub with_stopsign : MemoryStorage T S → ℕ → Option StopSign → Option (List (LogEntry T S))
  with_stopsign st from none = none
  with_stopsign st from (some ss) =
      some (map decided (drop (from - st.trimmed_idx) st.log) ++ LogEntry.stopsign ss ∷ [])

  -- What is decided from an index on, by where the decided index is.
  abbrev pub decided_suffix : MemoryStorage T S → ℕ → Option (List (LogEntry T S))
  decided_suffix st from =
      if leb st.ld from
      then none
      else if leb st.ld (length st.log + st.trimmed_idx)
      then some (decided_entries st from)
      else if st.ld == length st.log + st.trimmed_idx + 1
      then with_stopsign st from (decided_stopsign st.stopsign)
      else none

  read_suffix_stored :
      (st : MemoryStorage T S) (from : ℕ)
      → IsStored st
      → st.trimmed_idx ≤ from
      → from < st.ld
      → read_decided_suffix st from ≡ done (some (decided_entries st from))
  unfolding read_decided_suffix read start_bound end_bound read_to I.get_log_len get_entry_type
      control
  read_suffix_stored st from h p q =
      rw
        (
          lt→ltb from st.ld q,
          lt→ltb (length st.log + st.trimmed_idx) u64_mod h.in_u64,
          le→leb 1 st.ld (omega arith),
          le→ltb (st.ld - 1) st.trimmed_idx (omega arith),
          lt→ltb (st.ld - 1) (length st.log + st.trimmed_idx) (omega (arith, h.decided_stored)),
        )
        (read_from_entries st from h p q)

  module _ (st : MemoryStorage T S) (from : ℕ) (u : length st.log + st.trimmed_idx < u64_mod)
      (p : st.trimmed_idx ≤ from) (q : from < st.ld) where
    -- The range begins with an entry and ends with the StopSign, or is the StopSign alone.
    read_from_stopsign :
        (ss : StopSign)
        → decided_stopsign st.stopsign ≡ some ss
        → st.ld ≡ length st.log + st.trimmed_idx + 1
        → read_from st from st.ld st.trimmed_idx
            (IndexEntry.stopsign ss)
            (get_entry_type st from st.trimmed_idx (length st.log + st.trimmed_idx))
          ≡ done (with_stopsign st from (some ss))
    unfolding read_from read_between get_entry_type create_read_log_entries_with_real_idx
        get_entries control
    read_from_stopsign ss e k = elim (Bool-cases (ltb from (length st.log + st.trimmed_idx))) [
      | inl l ↦
          let in_log : from < length st.log + st.trimmed_idx = ground (arith, l) in
          let rest = drop (from - st.trimmed_idx) st.log in
          let size = length-drop (from - st.trimmed_idx) st.log in
          rw
            (
              le→ltb from st.trimmed_idx p,
              l,
              le→leb st.trimmed_idx from p,
              le→leb st.trimmed_idx st.ld (omega arith),
              le→leb 1 (st.ld - st.trimmed_idx) (omega arith),
              le→leb (from - st.trimmed_idx) (st.ld - st.trimmed_idx - 1) (omega arith),
              le→leb (st.ld - st.trimmed_idx - 1) (length st.log) (omega arith),
              take-all (st.ld - st.trimmed_idx - 1 - (from - st.trimmed_idx)) rest
                  (omega (arith, size)),
              label_from-decided rest 0 st.trimmed_idx st.ld (omega (arith, size)),
            )
            refl
      | inr l ↦
          let at_end : from ≡ length st.log + st.trimmed_idx = ground (arith, l) in
          rw
            (
              le→ltb from st.trimmed_idx p,
              l,
              (==_iff from (length st.log + st.trimmed_idx)).1 at_end,
              e,
              drop-all (from - st.trimmed_idx) st.log (omega (arith, at_end)),
            )
            refl
    ]

    -- The last decided index is that of the StopSign.
    read_suffix_stopsign :
        (o : Option StopSign)
        → decided_stopsign st.stopsign ≡ o
        → st.ld ≡ length st.log + st.trimmed_idx + 1
        → read_decided_suffix st from ≡ done (with_stopsign st from o)
    unfolding read_decided_suffix read start_bound end_bound read_to I.get_log_len get_entry_type
        control
    read_suffix_stopsign none e k =
        rw
          (
            lt→ltb from st.ld q,
            lt→ltb (length st.log + st.trimmed_idx) u64_mod u,
            le→leb 1 st.ld (omega arith),
            le→ltb (st.ld - 1) st.trimmed_idx (omega arith),
            le→ltb (st.ld - 1) (length st.log + st.trimmed_idx) (omega arith),
            (==_iff (st.ld - 1) (length st.log + st.trimmed_idx)).1 (omega arith),
            e,
          )
          refl
    read_suffix_stopsign (some ss) e k =
        rw
          (
            lt→ltb from st.ld q,
            lt→ltb (length st.log + st.trimmed_idx) u64_mod u,
            le→leb 1 st.ld (omega arith),
            le→ltb (st.ld - 1) st.trimmed_idx (omega arith),
            le→ltb (st.ld - 1) (length st.log + st.trimmed_idx) (omega arith),
            (==_iff (st.ld - 1) (length st.log + st.trimmed_idx)).1 (omega arith),
            e,
          )
          (read_from_stopsign ss e k)

    -- No entry has the last decided index.
    read_suffix_past :
        length st.log + st.trimmed_idx + 1 < st.ld → read_decided_suffix st from ≡ done none
    unfolding read_decided_suffix read start_bound end_bound read_to I.get_log_len get_entry_type
        control
    read_suffix_past k =
        rw
          (
            lt→ltb from st.ld q,
            lt→ltb (length st.log + st.trimmed_idx) u64_mod u,
            le→leb 1 st.ld (omega arith),
            le→ltb (st.ld - 1) st.trimmed_idx (omega arith),
            le→ltb (st.ld - 1) (length st.log + st.trimmed_idx) (omega arith),
            past-== (st.ld - 1) (length st.log + st.trimmed_idx) (omega arith),
          )
          refl

  -- Reading the decided suffix from an index that is not compacted returns what is decided from
  -- there on, whatever the decided index is: nothing when that is not above the start; the entries
  -- up to it, in order and labelled as decided, when it is in the log; the rest of the log and the
  -- StopSign when it is one past the log and a StopSign is decided; and nothing when it is past
  -- the log otherwise. The end of the log is short of 2^64.
  pub read_decided_suffix-entries :
      (st : MemoryStorage T S) (from : ℕ)
      → length st.log + st.trimmed_idx < u64_mod
      → st.trimmed_idx ≤ from
      → read_decided_suffix st from ≡ done (decided_suffix st from)
  unfolding read_decided_suffix control
  read_decided_suffix-entries st from u p = elim (Bool-cases (leb st.ld from)) [
    | inl e ↦ let l = leb→le st.ld from e in rw (le→ltb from st.ld l, e) refl
    | inr e ↦
        let q = leb→lt st.ld from e in
        elim (Bool-cases (leb st.ld (length st.log + st.trimmed_idx))) [
          | inl f ↦
              let l = leb→le st.ld (length st.log + st.trimmed_idx) f in
              let h : IsStored st = record {
                trimmed_decided = omega arith;
                decided_stored = l;
                in_u64 = u;
              } in
              rw (e, f) (read_suffix_stored st from h p q)
          | inr f ↦
              let l = leb→lt st.ld (length st.log + st.trimmed_idx) f in
              elim (Bool-cases (st.ld == length st.log + st.trimmed_idx + 1)) [
                | inl g ↦
                    let k = (==_iff st.ld (length st.log + st.trimmed_idx + 1)).0 g in
                    rw (e, f, g) (read_suffix_stopsign st from u p q _ refl k)
                | inr g ↦ rw (e, f, g) (read_suffix_past st from u p q (ground (arith, g, l)))
              ]
        ]
  ]
