-- ===== src/Cluster.antt =====
-- Several replicas of omnipaxos_core/src/sequence_paxos/ over a network. A replica sends what
-- `get_outgoing_msgs` of omnipaxos_core/src/sequence_paxos/mod.rs gives; the network may lose,
-- repeat, delay and reorder it.
pub mod Invariant
pub mod Safety
mod Examples
use ik2203_distributed_coord.Prelude.{
  ℕ, suc, ◌≡◌, ◌≤◌, Bool, true, false, Option, none, some, List, [], ◌++◌, length, get_elem?, done,
  if◌then◌else◌, ◌==◌,
}
use ik2203_distributed_coord.Ballot.{default}
use ik2203_distributed_coord.Ballot.Order.{Le}
use ik2203_distributed_coord.Storage.{Snapshot}
use ik2203_distributed_coord.Storage.Memory.{MemoryStorage}
use ik2203_distributed_coord.Messages.{PaxosMessage}
use ik2203_distributed_coord.Paxos.{Paxos, get_outgoing_msgs}
use ik2203_distributed_coord.Paxos.Handle.{SequencePaxosConfig, sequence_paxos_with, max_pid_of}
use ik2203_distributed_coord.Paxos.Reach.{Step, receive, fetch}

-- The replicas by their pids, and every message that was sent so far. A pid outside the
-- configuration names a replica that no other one addresses.
pub record Cluster (T S : Type 0) : Type 0 where
  pub nodes : ℕ → Paxos T S
  pub wire : List (PaxosMessage T S)

abbrev pub update : {A : Type 0} → (ℕ → A) → ℕ → A → ℕ → A
update f k a j = if k == j then a else f j

module _ {T S : Type 0} where
  -- The message is on the wire.
  pub record IsSent (wire : List (PaxosMessage T S)) (m : PaxosMessage T S) : Type 0 where
    pub at : ℕ
    pub found : get_elem? wire at ≡ some m

  -- Replicas `1` to `n` that each count all of them, have accepted nothing and start without a leader.
  pub record IsStart (n : ℕ) (c : Cluster T S) : Type 0 where
    pub config : ℕ → SequencePaxosConfig
    pub storage : ℕ → MemoryStorage T S
    pub pid : (k : ℕ) → (config k).pid ≡ k
    pub leaderless : (k : ℕ) → (config k).skip_prepare_use_leader ≡ none
    pub peers : (k : ℕ) → 1 ≤ k → k ≤ n → suc (length (config k).peers) ≡ n
    pub max_pid : (k : ℕ) → 1 ≤ k → k ≤ n → max_pid_of (config k).pid (config k).peers ≡ done n
    pub fresh : (k : ℕ) → Le (storage k).acc_round default
    pub node : (k : ℕ) → sequence_paxos_with (config k) (storage k) ≡ done (c.nodes k)
    pub silent : c.wire ≡ []

  module _ ⦃snap : Snapshot T S⦄ where
    -- A replica receives only what was sent to it.
    abbrev pub Received : List (PaxosMessage T S) → {s t : Paxos T S} → Step s t → Type 0
    Received wire {s} (receive m e) = IsSent wire m × (m.to ≡ s.pid)
    Received wire _ = Unit

    abbrev pub emits : {s t : Paxos T S} → Step s t → List (PaxosMessage T S)
    emits {s} fetch = (get_outgoing_msgs s).1
    emits _ = []

    -- Replica `k` takes a step of its own.
    pub data ClusterStep (c : Cluster T S) : Cluster T S → Type 0 where
      step :
          (k : ℕ) {t : Paxos T S} (st : Step (c.nodes k) t)
          → Received c.wire st
          → ClusterStep c (record { nodes = update c.nodes k t; wire = c.wire ++ emits st })

    pub data ClusterReach (c : Cluster T S) : Cluster T S → Type 0 where
      start : ClusterReach c c
      later : {d e : Cluster T S} → ClusterReach c d → ClusterStep d e → ClusterReach c e
