-- ===== src/Messages.antt =====
-- omnipaxos_core/src/messages.rs: the messages of Sequence Paxos and of ballot leader election.
use ik2203_distributed_coord.Prelude.{ℕ, Bool, Option, List}
use ik2203_distributed_coord.Ballot.{Ballot}
use ik2203_distributed_coord.Storage.{StopSign, SnapshotType}

pub record Prepare : Type 0 where
  pub n : Ballot
  pub decided_idx : ℕ
  pub n_accepted : Ballot
  pub accepted_idx : ℕ

pub record Promise (T S : Type 0) : Type 0 where
  pub n : Ballot
  pub n_accepted : Ballot
  pub decided_snapshot : Option (SnapshotType S)
  pub suffix : List T
  pub decided_idx : ℕ
  pub accepted_idx : ℕ
  pub stopsign : Option StopSign

pub record AcceptSync (T S : Type 0) : Type 0 where
  pub n : Ballot
  pub decided_snapshot : Option (SnapshotType S)
  pub suffix : List T
  pub sync_idx : ℕ
  pub decided_idx : ℕ
  pub stopsign : Option StopSign

pub record FirstAccept : Type 0 where
  pub n : Ballot

pub record AcceptDecide (T : Type 0) : Type 0 where
  pub n : Ballot
  pub decided_idx : ℕ
  pub entries : List T

pub record Accepted : Type 0 where
  pub n : Ballot
  pub accepted_idx : ℕ

pub record Decide : Type 0 where
  pub n : Ballot
  pub decided_idx : ℕ

pub record AcceptStopSign : Type 0 where
  pub n : Ballot
  pub ss : StopSign

pub record AcceptedStopSign : Type 0 where
  pub n : Ballot

pub record DecideStopSign : Type 0 where
  pub n : Ballot

pub data Compaction : Type 0 where
  trim : ℕ → Compaction
  snapshot : Option ℕ → Compaction

pub data PaxosMsg (T S : Type 0) : Type 0 where
  prepare_req : PaxosMsg T S
  prepare : Prepare → PaxosMsg T S
  promise : Promise T S → PaxosMsg T S
  accept_sync : AcceptSync T S → PaxosMsg T S
  first_accept : FirstAccept → PaxosMsg T S
  accept_decide : AcceptDecide T → PaxosMsg T S
  accepted : Accepted → PaxosMsg T S
  decide : Decide → PaxosMsg T S
  proposal_forward : List T → PaxosMsg T S
  compaction : Compaction → PaxosMsg T S
  accept_stopsign : AcceptStopSign → PaxosMsg T S
  accepted_stopsign : AcceptedStopSign → PaxosMsg T S
  decide_stopsign : DecideStopSign → PaxosMsg T S
  forward_stopsign : StopSign → PaxosMsg T S

pub record PaxosMessage (T S : Type 0) : Type 0 where
  pub from : ℕ
  pub to : ℕ
  pub msg : PaxosMsg T S

pub record HeartbeatRequest : Type 0 where
  pub round : ℕ  -- u32

pub record HeartbeatReply : Type 0 where
  pub round : ℕ  -- u32
  pub ballot : Ballot
  pub quorum_connected : Bool

pub data HeartbeatMsg : Type 0 where
  request : HeartbeatRequest → HeartbeatMsg
  reply : HeartbeatReply → HeartbeatMsg

pub record BleMessage : Type 0 where
  pub from : ℕ
  pub to : ℕ
  pub msg : HeartbeatMsg

-- `Message`
pub data Message (T S : Type 0) : Type 0 where
  sequence_paxos : PaxosMessage T S → Message T S
  ble : BleMessage → Message T S

module _ {T S : Type 0} where
  pub get_sender : Message T S → ℕ
  get_sender (sequence_paxos p) = p.from
  get_sender (ble b) = b.from

  pub get_receiver : Message T S → ℕ
  get_receiver (sequence_paxos p) = p.to
  get_receiver (ble b) = b.to
