-- ===== src/Paxos/Adopts.antt =====
-- omnipaxos_core/src/sequence_paxos: the part of the log that a Promise carries (follower.rs,
-- `handle_prepare`) is what the new leader adopts (leader.rs, `handle_majority_promises`).
use ik2203_distributed_coord.Prelude.{
  ◌+◌, ◌-◌, ◌≡◌, ◌≤◌, ◌<◌, refl, ap, ◌∙◌, Bool, true, false, none, List, [], ◌∷◌, ◌++◌, arith,
  control, length, length-append, done, take, drop, take-append-drop, lt→ltb, le→leb, ltb, u64_mod,
  ◌&&◌,
}
use ik2203_distributed_coord.Ballot.{Ballot, eq_ballot, lt_ballot}
use ik2203_distributed_coord.Storage.{Snapshot}
use ik2203_distributed_coord.Storage.Memory.{MemoryStorage, get_suffix}
use ik2203_distributed_coord.Storage.Memory as M
use ik2203_distributed_coord.Storage.Internal as I
use ik2203_distributed_coord.Messages.{Prepare}
use ik2203_distributed_coord.LeaderState.{PromiseMetaData}
use ik2203_distributed_coord.Paxos.{Paxos}
use ik2203_distributed_coord.Paxos.Follower.{promise_behind, promise_item}
use ik2203_distributed_coord.Paxos.Leader.{adopt_log}

-- The new leader's log is behind the follower's: the follower accepted in a later round, and the logs
-- agree up to the leader's decided index, or both in the same round, and the follower accepted more.
pub data Behind {T S : Type 0} (l f : MemoryStorage T S) : Type 0 where
  later_round :
      lt_ballot l.acc_round f.acc_round ≡ true
      → l.ld - l.trimmed_idx ≤ length f.log
      → take (l.ld - l.trimmed_idx) l.log ≡ take (l.ld - l.trimmed_idx) f.log
      → Behind l f
  same_round :
      (entry : T) (rest : List T)
      → l.acc_round ≡ f.acc_round
      → f.log ≡ l.log ++ entry ∷ rest
      → Behind l f

drop-append_length : {A : Type 0} (xs ys : List A) → drop (length xs) (xs ++ ys) ≡ ys
drop-append_length [] ys = refl
drop-append_length (x ∷ xs) ys = drop-append_length xs ys

and_false : (b : Bool) → (b && false) ≡ false
and_false true = refl
and_false false = refl

later-ne : (a b : Ballot) → lt_ballot a b ≡ true → eq_ballot b a ≡ false
unfolding lt_ballot eq_ballot
later-ne a b h = ground arith

same-eq : (a b : Ballot) → a ≡ b → (lt_ballot a b ≡ false) × (eq_ballot b a ≡ true)
unfolding lt_ballot eq_ballot
same-eq a b h = ground arith

module _ {T S : Type 0} where
  -- the log part of the Prepare that a leader with this storage sends in round `n`
  abbrev pub prepare_of : MemoryStorage T S → Ballot → Prepare
  prepare_of l n = record {
    n = n;
    decided_idx = l.ld;
    n_accepted = l.acc_round;
    accepted_idx = length l.log + l.trimmed_idx;
  }

  -- A new leader whose log is behind a follower's, neither using snapshots and both compacted up to
  -- the same index, gets from the follower's Promise a suffix whose adoption makes its log the
  -- follower's, and neither side panics.
  pub promise_item-adopted :
      ⦃snap : Snapshot T S⦄ (f l : Paxos T S) (n : Ballot) (meta : PromiseMetaData)
      → snap.use_snapshots ≡ false
      → l.storage.trimmed_idx ≡ f.storage.trimmed_idx
      → l.storage.trimmed_idx ≤ l.storage.ld
      → length f.storage.log + f.storage.trimmed_idx < u64_mod
      → meta.n ≡ f.storage.acc_round
      → Behind l.storage f.storage
      → (suffix : List T) × (promise_item f
            (prepare_of l.storage n)
            f.storage.acc_round
            (length f.storage.log + f.storage.trimmed_idx)
          ≡ done (none, suffix))
        × (adopt_log l meta none suffix
            ≡ done (
              record (l.storage) { log = f.storage.log },
              length f.storage.log + f.storage.trimmed_idx,
            ))
  unfolding promise_item promise_behind adopt_log I.get_suffix get_suffix I.append_entries
      I.append_on_decided_prefix M.append_entries M.append_on_prefix control
  promise_item-adopted ⦃snap⦄ f l n meta u t p k m (later_round lt le agree) = (
    drop (l.storage.ld - l.storage.trimmed_idx) f.storage.log,
    rw (
      lt,
      u,
      and_false (ltb l.storage.ld f.storage.ld),
      ← t,
      le→leb l.storage.trimmed_idx l.storage.ld p,
      le→leb (l.storage.ld - l.storage.trimmed_idx) (length f.storage.log) le,
    ),
    rw (
      m,
      later-ne l.storage.acc_round f.storage.acc_round lt,
      le→leb l.storage.trimmed_idx l.storage.ld p,
      agree,
      take-append-drop (l.storage.ld - l.storage.trimmed_idx) f.storage.log,
      ← t,
      lt→ltb (length f.storage.log + l.storage.trimmed_idx) u64_mod (omega arith),
    ),
  )
  promise_item-adopted ⦃snap⦄ f l n meta u t p k m (same_round entry rest e q) =
      let (nlt, eq) = same-eq l.storage.acc_round f.storage.acc_round e in
      let len : length f.storage.log ≡ length l.storage.log + length (entry ∷ rest) =
        ap length q ∙ length-append l.storage.log (entry ∷ rest) in
      let sent_from : length l.storage.log + l.storage.trimmed_idx - f.storage.trimmed_idx
          ≡ length l.storage.log =
        omega arith in
      (
        entry ∷ rest,
        rw (
          nlt,
          eq,
          lt→ltb (length l.storage.log + l.storage.trimmed_idx)
              (length f.storage.log + f.storage.trimmed_idx) (omega arith),
          le→leb f.storage.trimmed_idx (length l.storage.log + l.storage.trimmed_idx) (omega arith),
          sent_from,
          le→leb (length l.storage.log) (length f.storage.log) (omega arith),
          q,
          drop-append_length l.storage.log (entry ∷ rest),
        ),
        rw (
          m,
          eq,
          ← q,
          ← t,
          lt→ltb (length f.storage.log + l.storage.trimmed_idx) u64_mod (omega arith),
        ),
      )
