-- ===== src/Server/Answers.antt =====
-- ddbb_server/src/ddbb_server.rs: how `lin_read` and `lin_write` find their decided entry.
use Prim.Native.String.{String}
use text.Mathlib.Text.{◌==◌ as str_eq}
use text.Mathlib.TextEquality.{eq_iff}
use ik2203_distributed_coord.Prelude.{
  ℕ, ◌≡◌, refl, Bool, true, false, Option, some, List, [], ◌∷◌, ◌++◌, arith, control, ◌==◌, ◌&&◌,
  ==_iff, not, sym, ap, ◌∙◌, ◌+◌, ◌<◌, length, map, All, all_cons, Returns, done, u64_mod,
  Bool-cases, inl, inr, false≢true,
}
use ik2203_distributed_coord.Storage.Read.{LogEntry as OmniLogEntry, decided}
use ik2203_distributed_coord.Server.Retrieve.{length-map, apply_all-runs}
use ik2203_distributed_coord.Server.Replay.{
  at_index, apply_all-step, apply_all-get, last_write, written_by,
}
use ik2203_distributed_coord.Server.Wal.{
  LogEntry, set_value, lin_read, lin_write, compact, find_log_by_opid,
}
use ik2203_distributed_coord.Server.Wal.Compaction.{newest, or_else}
use ik2203_distributed_coord.Server.{
  Ddbb, append_wal, get, apply_entry, apply_read, apply_all, poll_write, poll_read, read_value,
}

own_opid : (addr : String) (ts : ℕ) → (str_eq addr addr && ts == ts) ≡ true
own_opid addr ts = ground (arith, eq_iff addr addr, ==_iff ts ts)

written_by-own :
    (d : Ddbb) (key : String) (value : List ℕ) (ts : ℕ)
    → or_else (written_by (decided (lin_write (d.addr, ts) key value)) key) (get d key) ≡ some value
unfolding written_by newest control
written_by-own d key value ts = rw ((eq_iff key key).1 refl) refl

-- A linearizable operation with another id.
unfoldable pub is_other : String → ℕ → LogEntry → Bool
is_other addr ts (lin_read opid key value) = not (str_eq (opid.0) addr && opid.1 == ts)
is_other addr ts (lin_write opid key value) = not (str_eq (opid.0) addr && opid.1 == ts)
is_other addr ts _ = false

-- Applying another operation does not hide what the search finds.
apply_entry-found :
    (d : Ddbb) (log : LogEntry) (addr : String) (ts : ℕ)
    → is_other addr ts log ≡ true
    → (find_log_by_opid (apply_entry d log).wal_store.store addr ts
        ≡ find_log_by_opid d.wal_store.store addr ts)
      × ((apply_entry d log).addr ≡ d.addr)
unfolding apply_entry append_wal find_log_by_opid is_other control
apply_entry-found d (set_value key value) addr ts h = absurd (false≢true h)
apply_entry-found d compact addr ts h = absurd (false≢true h)
apply_entry-found d (lin_read opid key value) addr ts h =
    elim (Bool-cases (str_eq (opid.0) addr && opid.1 == ts)) [
      | inl e ↦ absurd (false≢true (rw e at h))
      | inr e ↦ (rw e refl, refl)
    ]
apply_entry-found d (lin_write opid key value) addr ts h =
    elim (Bool-cases (str_eq (opid.0) addr && opid.1 == ts)) [
      | inl e ↦ absurd (false≢true (rw e at h))
      | inr e ↦ (rw e refl, refl)
    ]

apply_all-found :
    (d : Ddbb) (later : List LogEntry) (d' : Ddbb) (addr : String) (ts : ℕ)
    → All (λ log. is_other addr ts log ≡ true) later
    → apply_all d (map decided later) ≡ done d'
    → (find_log_by_opid d'.wal_store.store addr ts ≡ find_log_by_opid d.wal_store.store addr ts)
      × (d'.addr ≡ d.addr)
unfolding apply_all apply_read
apply_all-found d [] d' addr ts h e =
    let q : d ≡ d' = cc e in
    (
      ap (λ (x : Ddbb). find_log_by_opid x.wal_store.store addr ts) (sym q),
      ap (λ (x : Ddbb). x.addr) (sym q),
    )
apply_all-found d (log ∷ later) d' addr ts (all_cons h hs) e =
    let (i, p, q) = apply_all-step d (decided log) (map decided later) d' e in
    let (f, a) = apply_entry-found (at_index d i) log addr ts h in
    let (g, c) = apply_all-found (apply_entry (at_index d i) log) later d' addr ts hs q in
    (g ∙ f, c ∙ a)

-- An operation is found behind others, with what the server logged of it.
apply_all-finds :
    (d : Ddbb) (log kept : LogEntry) (later : List LogEntry) (d' : Ddbb) (ts : ℕ)
    → ((i : ℕ)
        → find_log_by_opid (apply_entry (at_index d i) log).wal_store.store d.addr ts ≡ some kept)
    → ((i : ℕ) → (apply_entry (at_index d i) log).addr ≡ d.addr)
    → All (λ log. is_other d.addr ts log ≡ true) later
    → apply_all d (map decided (log ∷ later)) ≡ done d'
    → find_log_by_opid d'.wal_store.store d'.addr ts ≡ some kept
unfolding apply_read
apply_all-finds d log kept later d' ts found same h e =
    let (i, p, q) = apply_all-step d (decided log) (map decided later) d' e in
    let (g, c) = apply_all-found (apply_entry (at_index d i) log) later d' d.addr ts h q in
    ap (λ x. find_log_by_opid d'.wal_store.store x ts) (c ∙ same i) ∙ g ∙ found i

-- When a server applies its own LINWrite, or its own LINRead, and behind it only linearizable
-- operations with other ids, it does not panic below 2^64 entries, and then the waiting call finds
-- its entry: `lin_write` returns, and the key has the value written unless a later write of the
-- key came behind; and `lin_read` returns the value that the key had when the LINRead was applied,
-- whatever was written behind it.
pub apply_all-answers :
    (d : Ddbb) (ts : ℕ) (key : String) (value : List ℕ) (old : Option (List ℕ))
    (later : List LogEntry)
    → All (λ log. is_other d.addr ts log ≡ true) later
    → d.wal_store.idx + length later + 1 < u64_mod
    → Returns
        (λ d'.
          (poll_write d' ts ≡ true)
          × (get d' key ≡ last_write (map decided later) key (some value)))
        (apply_all d (map decided (lin_write (d.addr, ts) key value ∷ later)))
      × Returns
          (λ d'. poll_read d' ts ≡ some (get d key))
          (apply_all d (map decided (lin_read (d.addr, ts) key old ∷ later)))
unfolding poll_write poll_read read_value apply_entry append_wal get find_log_by_opid last_write
    control
apply_all-answers d ts key value old later h u =
    let write = lin_write (d.addr, ts) key value in
    let read = lin_read (d.addr, ts) key old in
    let size = length-map {B = OmniLogEntry LogEntry Unit} decided later in
    let (w, r) = apply_all-runs d (map decided (write ∷ later)) (omega (arith, size, u)) in
    let (x, s) = apply_all-runs d (map decided (read ∷ later)) (omega (arith, size, u)) in
    let found_write =
      apply_all-finds d write write later w ts (λ i. rw (own_opid d.addr ts) refl) (λ i. refl) h
        r in
    let found_read =
      apply_all-finds d read (lin_read (d.addr, ts) key (get d key)) later x ts
        (λ i. rw (own_opid d.addr ts) refl) (λ i. refl) h s in
    (
      record {
        value = w;
        runs = r;
        meets = (
          rw found_write refl,
          apply_all-get d (map decided (write ∷ later)) w r key
              ∙ ap (last_write (map decided later) key) (written_by-own d key value ts),
        );
      },
      record { value = x; runs = s; meets = rw found_read refl },
    )

-- the entries at which the search ends
unfoldable pub ends_search : LogEntry → Bool
ends_search (set_value key value) = true
ends_search compact = true
ends_search _ = false

-- The search for an operation never passes a SetValue or a Compact entry: the operations below one are
-- not found.
pub find_log_by_opid-ends :
    (newer older : List LogEntry) (log : LogEntry) (addr : String) (ts : ℕ)
    → ends_search log ≡ true
    → find_log_by_opid (newer ++ log ∷ older) addr ts ≡ find_log_by_opid newer addr ts
unfolding find_log_by_opid ends_search control
find_log_by_opid-ends [] older (set_value key value) addr ts h = refl
find_log_by_opid-ends [] older compact addr ts h = refl
find_log_by_opid-ends [] older (lin_read opid key value) addr ts h = cc
find_log_by_opid-ends [] older (lin_write opid key value) addr ts h = cc
find_log_by_opid-ends (set_value key value ∷ newer) older log addr ts h = refl
find_log_by_opid-ends (compact ∷ newer) older log addr ts h = refl
find_log_by_opid-ends (lin_read opid key value ∷ newer) older log addr ts h =
    rw (find_log_by_opid-ends newer older log addr ts h)
find_log_by_opid-ends (lin_write opid key value ∷ newer) older log addr ts h =
    rw (find_log_by_opid-ends newer older log addr ts h)
