-- ===== src/Storage/Examples.antt =====
-- A log of three entries, of which two are decided: the theorems of Storage at concrete states.
use ik2203_distributed_coord.Prelude.{ℕ, ◌≡◌, refl, arith, none, some, [], ◌∷◌, map, done, control}
use ik2203_distributed_coord.Ballot.{default}
use ik2203_distributed_coord.Storage.Memory.{MemoryStorage}
use ik2203_distributed_coord.Storage.Read.{decided, included, excluded, read, read_decided_suffix}
use ik2203_distributed_coord.Storage.Read.Labels.{read-one}
use ik2203_distributed_coord.Storage.Read.Suffix.{read_decided_suffix-entries}

-- the entries with the indices 1, 2 and 3
abbrev stored : MemoryStorage ℕ Unit
stored = record {
  log = 11 ∷ 12 ∷ 13 ∷ [];
  n_prom = default;
  acc_round = default;
  ld = 3;
  trimmed_idx = 1;
  snapshot = none;
  stopsign = none;
}

read_decided_suffix-entries_example :
    read_decided_suffix stored 2 ≡ done (some (map decided (12 ∷ [])))
unfolding control
read_decided_suffix-entries_example =
    read_decided_suffix-entries stored 2 (omega arith) (omega arith)

-- A decided index past the log, without a StopSign.
read_past : read_decided_suffix (record stored { ld = 5 }) 2 ≡ done none
unfolding control
read_past = read_decided_suffix-entries (record stored { ld = 5 }) 2 (omega arith) (omega arith)

-- The entry with the index 3 is not decided.
read-one_example : read stored (included 3) (excluded 4) ≡ done (some (decided 13 ∷ []))
unfolding control
read-one_example = read-one stored 3 13 (omega arith) (omega arith) refl
