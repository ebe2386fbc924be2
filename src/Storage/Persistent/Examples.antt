-- ===== src/Storage/Persistent/Examples.antt =====
-- Crates that behave, with lists for the commit log and functions for the database, and calls on them.
use ik2203_distributed_coord.Prelude.{
  ℕ, zero, suc, ◌+◌, ◌≡◌, ◌≢◌, refl, sym, ◌∙◌, ap, arith, List, [], ◌∷◌, ◌++◌, length, take, drop,
  take-append, take-all, drop-append, drop-all, ◌==◌, ==_iff, if◌then◌else◌, control, Option, none,
  some, Bool, true, false, Bool-cases, inl, inr, done,
}
use ik2203_distributed_coord.Storage.Memory.{MemoryStorage, empty_storage}
use ik2203_distributed_coord.Storage.Memory
use ik2203_distributed_coord.Storage.Persistent.{
  Key, nprom, acc, decide, trimmed, Crates, BallotStorage, StopSignEntryStorage, PersistentStorage,
  get_entries, append_on_prefix, get_promise, get_decided_idx, get_accepted_round,
  get_compacted_idx, get_stopsign, get_snapshot,
}
use ik2203_distributed_coord.Storage.Persistent.Refines.{Behaves, Shows}
use ik2203_distributed_coord.Storage.Persistent.Calls.{
  get_entries-Shows, append_on_prefix-keeps_one,
}
use ik2203_distributed_coord.Storage.Persistent.Simulation.{
  append_from, persistent_call, memory_call, Agree, persistent_call-refines,
}

abbrev number : Key → ℕ
number nprom = 0
number acc = 1
number decide = 2
number trimmed = 3
number Key.stopsign = 4
number Key.snapshot = 5

abbrev key_of : ℕ → Key
key_of zero = nprom
key_of (suc zero) = acc
key_of (suc (suc zero)) = decide
key_of (suc (suc (suc zero))) = trimmed
key_of (suc (suc (suc (suc zero)))) = Key.stopsign
key_of _ = Key.snapshot

key_of-number : (k : Key) → key_of (number k) ≡ k
key_of-number nprom = refl
key_of-number acc = refl
key_of-number decide = refl
key_of-number trimmed = refl
key_of-number Key.stopsign = refl
key_of-number Key.snapshot = refl

abbrev Db : Type 0
Db = Key → Option (List ℕ)

abbrev insert : Db → Key → List ℕ → Db
insert d k bytes k' = if number k == number k' then some bytes else d k'

insert-same : (d : Db) (k : Key) (bytes : List ℕ) → insert d k bytes k ≡ some bytes
unfolding control
insert-same d k bytes = rw ((==_iff (number k) (number k)).1 refl) refl

insert-other : (d : Db) (k k' : Key) (bytes : List ℕ) → k ≢ k' → insert d k bytes k' ≡ d k'
unfolding control
insert-other d k k' bytes n = elim (Bool-cases (number k == number k')) [
  | inl e ↦ absurd (
      n (
        sym (key_of-number k) ∙ ap key_of ((==_iff (number k) (number k')).0 e) ∙ key_of-number k'))
  | inr e ↦ rw e refl
]

abbrev number_bytes : ℕ → List ℕ
number_bytes n = n ∷ []

abbrev number_from : List ℕ → Option ℕ
number_from (n ∷ []) = some n
number_from _ = none

abbrev ballot_bytes : BallotStorage → List ℕ
ballot_bytes b = b.n ∷ (b.priority ∷ (b.pid ∷ []))

abbrev ballot_from : List ℕ → Option BallotStorage
ballot_from (n ∷ (priority ∷ (pid ∷ []))) = some (record { n = n; priority = priority; pid = pid })
ballot_from _ = none

abbrev bit : Bool → ℕ
bit true = 1
bit false = 0

abbrev metadata_bytes : Option (List ℕ) → List ℕ
metadata_bytes none = 0 ∷ []
metadata_bytes (some bytes) = 1 ∷ (length bytes ∷ bytes)

abbrev stopsign_bytes : StopSignEntryStorage → List ℕ
stopsign_bytes s = bit s.decided ∷ (s.ss.config_id ∷ (metadata_bytes s.ss.metadata ++ s.ss.nodes))

abbrev entry_of : ℕ → ℕ → List ℕ → Option (List ℕ) → StopSignEntryStorage
entry_of d id nodes metadata = record {
  ss = record { config_id = id; nodes = nodes; metadata = metadata };
  decided = d == 1;
}

abbrev stopsign_from : List ℕ → Option StopSignEntryStorage
stopsign_from (d ∷ (id ∷ (zero ∷ nodes))) = some (entry_of d id nodes none)
stopsign_from (d ∷ (id ∷ (suc _ ∷ (n ∷ rest)))) =
    some (entry_of d id (drop n rest) (some (take n rest)))
stopsign_from _ = none

take-front : (xs ys : List ℕ) → take (length xs) (xs ++ ys) ≡ xs
take-front xs ys =
    take-append xs ys (length xs) (omega arith) ∙ take-all (length xs) xs (omega arith)

drop-front : (xs ys : List ℕ) → drop (length xs) (xs ++ ys) ≡ ys
drop-front xs ys =
    drop-append xs ys (length xs) (omega arith)
    ∙ ap (λ l. l ++ ys) (drop-all (length xs) xs (omega arith))

abbrev stop_entry : Bool → ℕ → List ℕ → Option (List ℕ) → StopSignEntryStorage
stop_entry d id ns m = record {
  ss = record { config_id = id; nodes = ns; metadata = m };
  decided = d;
}

bit-eq : (d : Bool) → (bit d == 1) ≡ d
bit-eq true = refl
bit-eq false = refl

stop_round_trip :
    (d : Bool) (id : ℕ) (ns : List ℕ) (m : Option (List ℕ))
    → stopsign_from (stopsign_bytes (stop_entry d id ns m)) ≡ some (stop_entry d id ns m)
stop_round_trip d id ns none = ap (λ x. some (stop_entry x id ns none)) (bit-eq d)
stop_round_trip d id ns (some bytes) =
    ap
      (λ x. some (
        stop_entry x id (drop (length bytes) (bytes ++ ns))
          (some (take (length bytes) (bytes ++ ns)))))
      (bit-eq d)
    ∙ ap (λ x. some (stop_entry d id x (some (take (length bytes) (bytes ++ ns)))))
        (drop-front bytes ns)
    ∙ ap (λ x. some (stop_entry d id ns (some x))) (take-front bytes ns)

abbrev crates : Crates ℕ ℕ (List (List ℕ)) Db
crates = record {
  append = λ l ms. (l ++ ms, (length l, length ms));
  truncate = λ l n. take (n + 1) l;
  next_offset = λ l. length l;
  read = λ l n. drop n l;
  new_log = [];
  get = λ d k. d k;
  insert = insert;
  entry_bytes = number_bytes;
  entry_from = number_from;
  ballot_bytes = ballot_bytes;
  ballot_from = ballot_from;
  u64_bytes = number_bytes;
  u64_from = number_from;
  stopsign_bytes = stopsign_bytes;
  stopsign_from = stopsign_from;
  snapshot_bytes = number_bytes;
  snapshot_from = number_from;
}

abbrev behaves : Behaves crates
behaves = record {
  contents = λ l. l;
  append_contents = λ l ms. refl;
  append_first = λ l m ms. refl;
  append_count = λ l m ms. refl;
  truncate_contents = λ l n. refl;
  next_offset_contents = λ l. refl;
  new_contents = refl;
  get_same = insert-same;
  get_other = insert-other;
  entry_reads = λ e. refl;
  ballot_reads = λ b. refl;
  u64_reads = λ n. refl;
  stopsign_reads = λ s. stop_round_trip s.decided s.ss.config_id s.ss.nodes s.ss.metadata;
  snapshot_reads = λ s. refl;
}

-- Three entries, and no key.
abbrev stored : PersistentStorage (List (List ℕ)) Db
stored = record { commitlog = (7 ∷ []) ∷ ((8 ∷ []) ∷ ((9 ∷ []) ∷ [])); database = λ k. none }

abbrev shown : MemoryStorage ℕ ℕ
shown = record (empty_storage ℕ ℕ) { log = 7 ∷ (8 ∷ (9 ∷ [])) }

stored-Shows : Shows crates behaves stored shown
unfolding get_promise get_accepted_round get_decided_idx get_compacted_idx get_stopsign get_snapshot
stored-Shows = record {
  log = refl;
  n_prom = refl;
  acc_round = refl;
  ld = refl;
  trimmed_idx = refl;
  stopsign = refl;
  snapshot = refl;
}

persistent_call-refines_example :
    Agree crates behaves
      (persistent_call crates (append_from 3 (5 ∷ [])) stored)
      (memory_call (append_from 3 (5 ∷ [])) shown)
persistent_call-refines_example =
    persistent_call-refines crates behaves (append_from 3 (5 ∷ [])) stored shown stored-Shows
      (omega arith, omega arith)

append_on_prefix-keeps_one_example :
    ((append_on_prefix crates stored 1 (5 ∷ [])).0.commitlog
      ≡ (7 ∷ []) ∷ ((8 ∷ []) ∷ ((5 ∷ []) ∷ [])))
    × ((Memory.append_on_prefix shown 1 (5 ∷ [])).0.log ≡ 7 ∷ (5 ∷ []))
append_on_prefix-keeps_one_example =
    append_on_prefix-keeps_one crates behaves stored shown 1 8 (5 ∷ []) stored-Shows (omega arith)
      refl

get_entries-Shows_example : get_entries crates stored 1 3 ≡ done (Memory.get_entries shown 1 3)
get_entries-Shows_example =
    get_entries-Shows crates behaves stored shown 1 3 stored-Shows refl (omega arith)

-- With an empty prefix the entries before stay.
append_on_prefix-zero_keeps :
    (append_on_prefix crates stored 0 (5 ∷ [])).0.commitlog
    ≡ (7 ∷ []) ∷ ((8 ∷ []) ∷ ((9 ∷ []) ∷ ((5 ∷ []) ∷ [])))
unfolding append_on_prefix control
append_on_prefix-zero_keeps = refl
