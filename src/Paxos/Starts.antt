-- ===== src/Paxos/Starts.antt =====
-- omnipaxos_core/src/sequence_paxos/mod.rs, `with`: what a new replica takes from its storage.
use ik2203_distributed_coord.Prelude.{
  ℕ, ◌≡◌, refl, Option, none, some, List, Ensures, Ensures-done, Ensures-if, Ensures-bind_any,
}
use ik2203_distributed_coord.Storage.Memory.{MemoryStorage}
use ik2203_distributed_coord.Ballot.{Ballot, default}
use ik2203_distributed_coord.Paxos.{Role, Phase}
use ik2203_distributed_coord.Paxos.Reach.{start_round}
use ik2203_distributed_coord.Paxos.Handle.{
  SequencePaxosConfig, new_replica, with_leader, sequence_paxos_with,
}

module _ {T S : Type 0} where
  new_replica-storage :
      (c : SequencePaxosConfig) (st : MemoryStorage T S) (m : ℕ) (r : Role) (p : Phase) (l : Ballot)
      (lds : Option (List (Option ℕ)))
      → (new_replica c st m r p l lds).storage ≡ (record st { n_prom = l })
  unfolding new_replica
  new_replica-storage c st m r p l lds = refl

  -- A new replica keeps its storage but for the promised round, which becomes the configured leader's
  -- round, or the default one, whatever round the storage had promised.
  pub sequence_paxos_with-storage :
      (c : SequencePaxosConfig) (st : MemoryStorage T S)
      → Ensures
          (λ s. s.storage ≡ (record st { n_prom = start_round c.skip_prepare_use_leader }))
          (sequence_paxos_with c st)
  unfolding sequence_paxos_with with_leader
  sequence_paxos_with-storage c st = Ensures-bind_any _ λ m e. starts m c.skip_prepare_use_leader
    where
      starts :
          (m : ℕ) (o : Option Ballot)
          → Ensures (λ s. s.storage ≡ (record st { n_prom = start_round o })) (with_leader c st m o)
      starts m none =
          Ensures-done (new_replica-storage c st m Role.follower Phase.none default none)
      starts m (some l) =
          Ensures-if _
            (λ e. Ensures-bind_any _ λ v e'.
              Ensures-done (new_replica-storage c st m Role.leader Phase.first_accept l (some v)))
            (λ e. Ensures-done (new_replica-storage c st m Role.follower Phase.first_accept l none))
