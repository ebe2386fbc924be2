-- ===== src/Server/Replay.antt =====
-- ddbb_server/src/ddbb_server.rs: `retrieve_logs_from_omni` applies decided entries to the table
-- and to the log of applied entries, which agree.
use Prim.Native.String.{String}
use text.Mathlib.Text.{◌==◌ as str_eq}
use ik2203_distributed_coord.Prelude.{
  ℕ, ◌+◌, ◌≡◌, refl, sym, ◌∙◌, ap, Bool, true, false, Option, none, some, List, [], ◌∷◌, ◌++◌,
  arith, control, if◌then◌else◌, Outcome, done, panic, ◌>>=◌, >>=-eq-done, length, add_u64,
}
use mathlib.Core.Path.{subst}
use ik2203_distributed_coord.Storage.Read.{LogEntry as OmniLogEntry}
use ik2203_distributed_coord.Server.Table.{get-put}
use ik2203_distributed_coord.Server.Wal.{LogEntry, set_value, lin_read, lin_write, compact}
use ik2203_distributed_coord.Server.Wal.Compaction.{newest, or_else, snapshot-newest}
use ik2203_distributed_coord.Server.{Ddbb, append_wal, get, apply_entry, apply_read, apply_all}

-- Every key reads as the newest applied write of it.
unfoldable pub Agrees : Ddbb → Type 0
Agrees d = (k : String) → get d k ≡ newest d.wal_store.store k

abbrev pub at_index : Ddbb → ℕ → Ddbb
at_index d i = record d { wal_store = record (d.wal_store) { idx = i } }

or_else-if :
    (b : Bool) (v : List ℕ) (o : Option (List ℕ))
    → (if b then some v else o) ≡ or_else (if b then some v else none) o
unfolding control
or_else-if true v o = refl
or_else-if false v o = refl

-- The code goes on after a step with an entry exactly when the addition does not overflow.
pub apply_all-step :
    (d : Ddbb) (x : OmniLogEntry LogEntry Unit) (es : List (OmniLogEntry LogEntry Unit)) (d' : Ddbb)
    → apply_all d (x ∷ es) ≡ done d'
    → (i : ℕ) × (i ≡ d.wal_store.idx + 1) × (apply_all (apply_read (at_index d i) x) es ≡ done d')
unfolding apply_all
apply_all-step d x es d' e =
    let (i, p, q) = >>=-eq-done (add_u64 d.wal_store.idx 1) _ e in
    (i, unfold control in ground arith, q)

pub apply_read-idx :
    (d : Ddbb) (x : OmniLogEntry LogEntry Unit) → (apply_read d x).wal_store.idx ≡ d.wal_store.idx
unfolding apply_read apply_entry append_wal
apply_read-idx d (OmniLogEntry.decided (set_value key value)) = refl
apply_read-idx d (OmniLogEntry.decided (lin_write opid key value)) = refl
apply_read-idx d (OmniLogEntry.decided (lin_read opid key value)) = refl
apply_read-idx d (OmniLogEntry.decided compact) = refl
apply_read-idx d (OmniLogEntry.undecided log) = refl
apply_read-idx d (OmniLogEntry.trimmed i) = refl
apply_read-idx d (OmniLogEntry.snapshotted i s) = refl
apply_read-idx d (OmniLogEntry.stopsign ss) = refl

apply_entry-Agrees : (d : Ddbb) (log : LogEntry) → Agrees d → Agrees (apply_entry d log)
unfolding apply_entry append_wal get newest Agrees
apply_entry-Agrees d (set_value key value) h k = get-put d.kv_store key k value ∙ (rw (h k) refl)
apply_entry-Agrees d (lin_write opid key value) h k =
    get-put d.kv_store key k value ∙ (rw (h k) refl)
apply_entry-Agrees d (lin_read opid key value) h k = h k
apply_entry-Agrees d compact h k = h k ∙ sym (snapshot-newest (compact ∷ d.wal_store.store) k)

apply_read-Agrees : (d : Ddbb) (e : OmniLogEntry LogEntry Unit) → Agrees d → Agrees (apply_read d e)
unfolding apply_read
apply_read-Agrees d (OmniLogEntry.decided log) h = apply_entry-Agrees d log h
apply_read-Agrees d (OmniLogEntry.undecided log) h = h
apply_read-Agrees d (OmniLogEntry.trimmed i) h = h
apply_read-Agrees d (OmniLogEntry.snapshotted i s) h = h
apply_read-Agrees d (OmniLogEntry.stopsign ss) h = h

-- Applying what was read keeps the table and the applied entries in agreement: when every key
-- reads as the newest applied write of it, it does so after `apply_all` returns too, also when
-- the entries compact the log.
pub apply_all-Agrees :
    (d : Ddbb) (es : List (OmniLogEntry LogEntry Unit)) (d' : Ddbb)
    → Agrees d
    → apply_all d es ≡ done d'
    → Agrees d'
unfolding apply_all
apply_all-Agrees d [] d' h e = subst Agrees (cc e) h
apply_all-Agrees d (x ∷ es) d' h e =
    let (i, p, q) = apply_all-step d x es d' e in
    apply_all-Agrees (apply_read (at_index d i) x) es d'
      (apply_read-Agrees (at_index d i) x (unfold Agrees get in h)) q

-- the value that an entry writes at `k`
unfoldable pub written_by : OmniLogEntry LogEntry Unit → String → Option (List ℕ)
written_by (OmniLogEntry.decided log) k = newest (log ∷ []) k
written_by _ k = none

-- The value of the last decided write of `k`, or else the value `old`.
unfoldable pub last_write :
    List (OmniLogEntry LogEntry Unit) → String → Option (List ℕ) → Option (List ℕ)
unfolding written_by
last_write [] k old = old
last_write (x ∷ es) k old = last_write es k (or_else (written_by x k) old)

apply_read-get :
    (d : Ddbb) (x : OmniLogEntry LogEntry Unit) (k : String)
    → get (apply_read d x) k ≡ or_else (written_by x k) (get d k)
unfolding apply_read apply_entry get newest written_by control
apply_read-get d (OmniLogEntry.decided (set_value key value)) k =
    get-put d.kv_store key k value ∙ or_else-if (str_eq key k) value (get d k)
apply_read-get d (OmniLogEntry.decided (lin_write opid key value)) k =
    get-put d.kv_store key k value ∙ or_else-if (str_eq key k) value (get d k)
apply_read-get d (OmniLogEntry.decided (lin_read opid key value)) k = refl
apply_read-get d (OmniLogEntry.decided compact) k = refl
apply_read-get d (OmniLogEntry.undecided log) k = refl
apply_read-get d (OmniLogEntry.trimmed i) k = refl
apply_read-get d (OmniLogEntry.snapshotted i s) k = refl
apply_read-get d (OmniLogEntry.stopsign ss) k = refl

-- When `apply_all` returns, each key reads as the last decided write of it among the entries read,
-- and as before if none wrote it. Nothing else of the server decides the table.
pub apply_all-get :
    (d : Ddbb) (es : List (OmniLogEntry LogEntry Unit)) (d' : Ddbb)
    → apply_all d es ≡ done d'
    → (k : String) → get d' k ≡ last_write es k (get d k)
unfolding apply_all last_write
apply_all-get d [] d' e k = let q : d ≡ d' = cc e in ap (λ (x : Ddbb). get x k) (sym q)
apply_all-get d (x ∷ es) d' e k =
    let (i, p, q) = apply_all-step d x es d' e in
    let h = apply_read-get (at_index d i) x k in
    apply_all-get (apply_read (at_index d i) x) es d' q k ∙ ap (last_write es k) h

>>=-same :
    {A B C : Type 0} (m : Outcome A) (g : A → Outcome B) (h : B → Outcome C) {f : A → Outcome C}
    → ((a : A) → f a ≡ (g a >>= h))
    → (m >>= f) ≡ ((m >>= g) >>= h)
unfolding control
>>=-same (done a) g h q = q a
>>=-same panic g h q = refl

-- Reading the decided entries in two batches is reading them in one.
apply_all-append :
    (d : Ddbb) (xs ys : List (OmniLogEntry LogEntry Unit))
    → apply_all d (xs ++ ys) ≡ (apply_all d xs >>= λ d'. apply_all d' ys)
unfolding apply_all control
apply_all-append d [] ys = refl
apply_all-append d (x ∷ xs) ys =
    >>=-same (add_u64 d.wal_store.idx 1) (λ i. apply_all (apply_read (at_index d i) x) xs)
      (λ d'. apply_all d' ys) (λ i. apply_all-append (apply_read (at_index d i) x) xs ys)

-- The index moves by the number of the entries read, so the next read starts after them.
pub apply_all-idx :
    (d : Ddbb) (es : List (OmniLogEntry LogEntry Unit)) (d' : Ddbb)
    → apply_all d es ≡ done d'
    → d'.wal_store.idx ≡ d.wal_store.idx + length es
unfolding apply_all
apply_all-idx d [] d' e =
    let q : d ≡ d' = cc e in omega (arith, ap (λ (x : Ddbb). x.wal_store.idx) q)
apply_all-idx d (x ∷ es) d' e =
    let (i, p, q) = apply_all-step d x es d' e in
    omega (
      arith,
      apply_all-idx (apply_read (at_index d i) x) es d' q,
      p,
      apply_read-idx (at_index d i) x,
    )
