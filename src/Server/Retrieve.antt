-- ===== src/Server/Retrieve.antt =====
-- ddbb_server/src/ddbb_server.rs, `retrieve_logs_from_omni`: a server that reads its replica's
-- decided entries applies exactly those, each once.
use Prim.Native.String.{String}
use ik2203_distributed_coord.Prelude.{
  suc, ◌+◌, ◌-◌, ◌≡◌, ◌≤◌, ◌<◌, refl, sym, ap, ◌∙◌, Option, none, some, ◌++◌, leb, ◌==◌, ==_iff,
  leb→le, leb→lt, Bool-cases, inl, inr, if◌then◌else◌, length-append, Returns-done, List, [], ◌∷◌,
  map, length, take, drop, length-take, length-drop, arith, control, done, Returns, u64_mod,
  add_u64-runs,
}
use ik2203_distributed_coord.Storage.Memory.{MemoryStorage}
use ik2203_distributed_coord.Storage.Read.{LogEntry as OmniLogEntry, decided}
use ik2203_distributed_coord.Storage.{StopSign}
use ik2203_distributed_coord.LeaderState.{is_some}
use ik2203_distributed_coord.Storage.Read.Suffix.{
  decided_entries, with_stopsign, decided_suffix, read_decided_suffix-entries,
}
use ik2203_distributed_coord.Omni.{read_decided_suffix}
use ik2203_distributed_coord.Server.Wal.{LogEntry}
use ik2203_distributed_coord.Server.{
  Ddbb, get, apply_read, apply_all, apply_some, retrieve_logs_from_omni,
}
use ik2203_distributed_coord.Server.Replay.{
  at_index, apply_read-idx, apply_all-idx, apply_all-get, last_write,
}

pub length-map : {A B : Type 0} (f : A → B) (xs : List A) → length (map f xs) ≡ length xs
length-map f [] = refl
length-map f (x ∷ xs) = ap suc (length-map f xs)

some_inj : {A : Type 0} {a b : A} → some a ≡ some b → a ≡ b
some_inj h = cc

none-some : {A B : Type 0} {a : A} → none ≡ some a → B
none-some h = cc

pub apply_all-runs :
    (d : Ddbb) (es : List (OmniLogEntry LogEntry Unit))
    → d.wal_store.idx + length es < u64_mod
    → (d' : Ddbb) × (apply_all d es ≡ done d')
unfolding apply_all control
apply_all-runs d [] h = (d, refl)
apply_all-runs d (e ∷ es) h =
    let n = d.wal_store.idx + 1 in
    let next = apply_read (at_index d n) e in
    let same = apply_read-idx (at_index d n) e in
    let (d', r) = apply_all-runs next es (omega (arith, same)) in
    (d', rw (add_u64-runs d.wal_store.idx 1 (omega arith)) r)

-- the storage of the server's replica
abbrev pub replica : Ddbb → MemoryStorage LogEntry Unit
replica d = d.omni.seq_paxos.storage

-- what the server has not applied and its replica reads as decided
abbrev pub unapplied : Ddbb → Option (List (OmniLogEntry LogEntry Unit))
unapplied d = decided_suffix (replica d) d.wal_store.idx

abbrev pub or_nil : Option (List (OmniLogEntry LogEntry Unit)) → List (OmniLogEntry LogEntry Unit)
or_nil none = []
or_nil (some es) = es

module _ (d : Ddbb) (p : (replica d).trimmed_idx ≤ d.wal_store.idx) where
  length-decided_entries :
      d.wal_store.idx < (replica d).ld
      → (replica d).ld ≤ length (replica d).log + (replica d).trimmed_idx
      → d.wal_store.idx + length (decided_entries (replica d) d.wal_store.idx) ≡ (replica d).ld
  length-decided_entries q l =
      let kept = drop (d.wal_store.idx - (replica d).trimmed_idx) (replica d).log in
      let read = take ((replica d).ld - d.wal_store.idx) kept in
      omega (
        arith,
        length-map {B = OmniLogEntry LogEntry Unit} decided read,
        length-take ((replica d).ld - d.wal_store.idx) kept,
        length-drop (d.wal_store.idx - (replica d).trimmed_idx) (replica d).log,
      )

  length-with_stopsign :
      (o : Option StopSign) (es : List (OmniLogEntry LogEntry Unit))
      → d.wal_store.idx < (replica d).ld
      → (replica d).ld ≡ length (replica d).log + (replica d).trimmed_idx + 1
      → with_stopsign (replica d) d.wal_store.idx o ≡ some es
      → d.wal_store.idx + length es ≡ (replica d).ld
  length-with_stopsign none es q l e = cc
  length-with_stopsign (some ss) es q l e =
      let rest = drop (d.wal_store.idx - (replica d).trimmed_idx) (replica d).log in
      let labelled = map {B = OmniLogEntry LogEntry Unit} decided rest in
      let read : labelled ++ OmniLogEntry.stopsign ss ∷ [] ≡ es = some_inj e in
      omega (
        arith,
        ap (length {A = OmniLogEntry LogEntry Unit}) read,
        length-append labelled (OmniLogEntry.stopsign ss ∷ []),
        length-map {B = OmniLogEntry LogEntry Unit} decided rest,
        length-drop (d.wal_store.idx - (replica d).trimmed_idx) (replica d).log,
      )

  -- What is read ends at the decided index.
  unapplied-ends :
      (es : List (OmniLogEntry LogEntry Unit))
      → unapplied d ≡ some es
      → (d.wal_store.idx + length es ≡ (replica d).ld)
        × ((replica d).ld ≤ length (replica d).log + (replica d).trimmed_idx + 1)
  unfolding control
  unapplied-ends es h = elim (Bool-cases (leb (replica d).ld d.wal_store.idx)) [
    | inl e ↦ none-some (rw e at h)
    | inr e ↦
        let q = leb→lt (replica d).ld d.wal_store.idx e in
        let len = length (replica d).log + (replica d).trimmed_idx in
        elim (Bool-cases (leb (replica d).ld len)) [
          | inl f ↦
              let l = leb→le (replica d).ld len f in
              let same = some_inj (rw (e, f) at h) in
              (
                ap (λ x. d.wal_store.idx + length {A = OmniLogEntry LogEntry Unit} x) (sym same)
                    ∙ length-decided_entries q l,
                omega (arith, l),
              )
          | inr f ↦ elim (Bool-cases ((replica d).ld == len + 1)) [
            | inl g ↦
                let k = (==_iff (replica d).ld (len + 1)).0 g in
                (length-with_stopsign _ es q k (rw (e, f, g) at h), omega (arith, k))
            | inr g ↦ none-some (rw (e, f, g) at h)
          ]
        ]
  ]

  -- A server whose replica has compacted nothing that it has not applied, and whose log ends short
  -- of 2^64 - 1, reads the decided suffix from its index and does not panic: its index becomes the
  -- decided index where there is something to read, and stays where there is not, as when the
  -- decided index is past the log; and each key reads as the last entry read wrote it, or as
  -- before if none did.
  pub retrieve-applies :
      length (replica d).log + (replica d).trimmed_idx + 1 < u64_mod
      → Returns
          (λ d'.
            (d'.wal_store.idx ≡ (if is_some (unapplied d) then (replica d).ld else d.wal_store.idx))
            × ((k : String) → get d' k ≡ last_write (or_nil (unapplied d)) k (get d k)))
          (retrieve_logs_from_omni d)
  unfolding retrieve_logs_from_omni read_decided_suffix apply_some last_write control
  retrieve-applies u =
      rw (read_decided_suffix-entries (replica d) d.wal_store.idx (omega arith) p)
        (applied (unapplied d) refl)
    where
      applied :
          (o : Option (List (OmniLogEntry LogEntry Unit)))
          → unapplied d ≡ o
          → Returns
              (λ d'.
                (d'.wal_store.idx ≡ (if is_some o then (replica d).ld else d.wal_store.idx))
                × ((k : String) → get d' k ≡ last_write (or_nil o) k (get d k)))
              (apply_some d o)
      applied none e = Returns-done (refl, λ k. refl)
      applied (some es) e =
          let (n, l) = unapplied-ends es e in
          let (d', r) = apply_all-runs d es (omega (arith, n, l, u)) in
          record {
            value = d';
            runs = r;
            meets = (apply_all-idx d es d' r ∙ n, apply_all-get d es d' r);
          }
