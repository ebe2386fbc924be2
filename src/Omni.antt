-- ===== src/Omni.antt =====
-- omnipaxos_core/src/omni_paxos.rs: `OmniPaxos`, which joins Sequence Paxos and leader election.
pub mod Runs
pub mod Refines
pub mod Examples
use ik2203_distributed_coord.Prelude.{
  ℕ, ◌+◌, Bool, true, false, ◌||◌, not, Option, none, some, List, [], ◌∷◌, ◌++◌, map, ◌==◌,
  is_empty, if◌then◌else◌, Outcome, done, panic, ◌>>=◌, add_u64, ltb,
}
use ik2203_distributed_coord.Ballot.{Ballot, default, eq_ballot}
use ik2203_distributed_coord.Storage.{StopSign, Snapshot, CompactionErr, Result}
use ik2203_distributed_coord.Storage.Memory.{MemoryStorage}
use ik2203_distributed_coord.Storage.Read.{LogEntry, Bound, included, excluded}
use ik2203_distributed_coord.Storage.Read
use ik2203_distributed_coord.Messages.{Message, sequence_paxos, ble}
use ik2203_distributed_coord.Paxos.{Paxos}
use ik2203_distributed_coord.Paxos as Replica
use ik2203_distributed_coord.Paxos.Leader.{handle_leader}
use ik2203_distributed_coord.Paxos.Handle.{ProposeErr, ReconfigurationRequest, sequence_paxos_with}
use ik2203_distributed_coord.Paxos.Handle
use ik2203_distributed_coord.Ble.{BallotLeaderElection, ble_with}
use ik2203_distributed_coord.Ble

-- `OmniPaxosConfig`, less the logger
pub record OmniPaxosConfig : Type 0 where
  pub configuration_id : ℕ
  pub pid : ℕ
  pub peers : List ℕ
  pub buffer_size : ℕ
  pub skip_prepare_use_leader : Option Ballot
  pub leader_priority : ℕ
  pub initial_leader : Option Ballot

pub record OmniPaxos (T S : Type 0) : Type 0 where
  pub seq_paxos : Paxos T S
  pub ble : BallotLeaderElection

-- `peers.contains(&pid)`
unfoldable pub contains : List ℕ → ℕ → Bool
contains [] p = false
contains (x ∷ xs) p = x == p || contains xs p

abbrev zero_pid : Option Ballot → Bool
zero_pid none = false
zero_pid (some l) = l.pid == 0

-- one of the assertions of `build` fails
unfoldable pub is_refused : OmniPaxosConfig → Bool
is_refused c =
    c.pid == 0
    || (c.configuration_id == 0
        || (is_empty c.peers
            || (contains c.peers c.pid
                || (c.buffer_size == 0 || zero_pid c.skip_prepare_use_leader))))

module _ {T S : Type 0} where
  unfoldable pub build : OmniPaxosConfig → MemoryStorage T S → Outcome (OmniPaxos T S)
  build c storage = if is_refused c then panic else (do
    s ←
        sequence_paxos_with
          (record {
            configuration_id = c.configuration_id;
            pid = c.pid;
            peers = c.peers;
            skip_prepare_use_leader = c.skip_prepare_use_leader;
          })
          storage
    b ← ble_with (record {
      pid = c.pid;
      peers = c.peers;
      priority = c.leader_priority;
      initial_leader = c.initial_leader;
    })
    done (record { seq_paxos = s; ble = b }))

  unfoldable pub get_current_leader_ballot : OmniPaxos T S → Option Ballot
  get_current_leader_ballot o =
      if eq_ballot o.seq_paxos.leader default then none else some o.seq_paxos.leader

  -- The heartbeats go out before the Paxos messages.
  unfoldable pub outgoing_messages : OmniPaxos T S → OmniPaxos T S × List (Message T S)
  outgoing_messages o =
      let p = Replica.get_outgoing_msgs o.seq_paxos in
      let b = Ble.get_outgoing_msgs o.ble in
      (record { seq_paxos = p.0; ble = b.0 }, map ble b.1 ++ map sequence_paxos p.1)

  unfoldable pub last_of : List (LogEntry T S) → Option (LogEntry T S)
  last_of [] = none
  last_of (x ∷ []) = some x
  last_of (x ∷ (y ∷ ys)) = last_of (y ∷ ys)

  unfoldable pub pop_read : Option (List (LogEntry T S)) → Option (LogEntry T S)
  unfolding last_of
  pop_read none = none
  pop_read (some v) = last_of v

  unfoldable pub read : OmniPaxos T S → ℕ → Outcome (Option (LogEntry T S))
  unfolding pop_read
  read o idx = do
    end ← add_u64 idx 1
    v ← Read.read o.seq_paxos.storage (included idx) (excluded end)
    done (pop_read v)

  unfoldable pub read_decided_suffix : OmniPaxos T S → ℕ → Outcome (Option (List (LogEntry T S)))
  read_decided_suffix o from_idx = Read.read_decided_suffix o.seq_paxos.storage from_idx

  unfoldable pub append : OmniPaxos T S → T → Outcome (OmniPaxos T S × Result Unit (ProposeErr T))
  append o entry = do r ← Handle.append o.seq_paxos entry; done (record o { seq_paxos = r.0 }, r.1)

  unfoldable pub lead_if : OmniPaxos T S → Option Ballot → Outcome (OmniPaxos T S)
  lead_if o none = done o
  lead_if o (some b) = do s ← handle_leader o.seq_paxos b; done (record o { seq_paxos = s })

  -- A timeout of the election, and the new leader, if there is one, for Sequence Paxos.
  unfoldable pub election_timeout : OmniPaxos T S → Outcome (OmniPaxos T S)
  unfolding lead_if
  election_timeout o = do r ← Ble.hb_timeout o.ble; lead_if (record o { ble = r.0 }) r.1

  unfoldable pub handle_incoming :
      ⦃snap : Snapshot T S⦄ → OmniPaxos T S → Message T S → Outcome (OmniPaxos T S)
  handle_incoming o (sequence_paxos p) = do
    s ← Handle.handle o.seq_paxos p
    done (record o { seq_paxos = s })
  handle_incoming o (ble b) = done (record o { ble = Ble.handle o.ble b })

  -- The other calls go to the replica or to the election as they are.
  unfoldable pub trim :
      OmniPaxos T S → Option ℕ → Outcome (OmniPaxos T S × Result Unit CompactionErr)
  trim o trim_index = do
    r ← Replica.trim o.seq_paxos trim_index
    done (record o { seq_paxos = r.0 }, r.1)

  unfoldable pub snapshot :
      ⦃snap : Snapshot T S⦄
      → OmniPaxos T S
      → Option ℕ
      → Bool
      → Outcome (OmniPaxos T S × Result Unit CompactionErr)
  snapshot o compact_idx local_only = do
    r ← Replica.snapshot o.seq_paxos compact_idx local_only
    done (record o { seq_paxos = r.0 }, r.1)

  unfoldable pub fail_recovery : OmniPaxos T S → OmniPaxos T S
  fail_recovery o = record o { seq_paxos = Replica.fail_recovery o.seq_paxos }

  unfoldable pub read_entries :
      OmniPaxos T S → Bound → Bound → Outcome (Option (List (LogEntry T S)))
  read_entries o from to = Read.read o.seq_paxos.storage from to

  unfoldable pub is_reconfigured : OmniPaxos T S → Option StopSign
  is_reconfigured o = Replica.is_reconfigured o.seq_paxos

  unfoldable pub reconfigure :
      OmniPaxos T S → ReconfigurationRequest → Outcome (OmniPaxos T S × Result Unit (ProposeErr T))
  reconfigure o rc = do
    r ← Handle.reconfigure o.seq_paxos rc
    done (record o { seq_paxos = r.0 }, r.1)

  unfoldable pub reconnected : OmniPaxos T S → ℕ → OmniPaxos T S
  reconnected o pid = record o { seq_paxos = Handle.reconnected o.seq_paxos pid }

  unfoldable pub set_priority : OmniPaxos T S → ℕ → OmniPaxos T S
  set_priority o p = record o { ble = Ble.set_priority o.ble p }
