-- ===== src/Paxos.antt =====
-- omnipaxos_core/src/sequence_paxos/mod.rs: the state of a replica and the operations that the
-- follower's and the leader's handlers share. The handlers stand in the child modules.
-- A handler takes the state and returns the new one, or panics.
pub mod Sending
pub mod Follower
pub mod Leader
pub mod Handle
pub mod Cached
pub mod Frame
pub mod Rounds
pub mod Reach
pub mod Quorum
pub mod Starts
pub mod Adopts
pub mod Examples
pub mod Synchronizes
pub mod Accepts
pub mod Stale
pub mod Gives
pub mod Batches
pub mod Proposes
use ik2203_distributed_coord.Prelude.{
  ℕ, Bool, true, false, ◌&&◌, not, Option, some, List, [], ◌∷◌, ◌++◌, if◌then◌else◌, Outcome, done,
  ◌>>=◌, leb,
}
use ik2203_distributed_coord.Ballot.{Ballot}
use ik2203_distributed_coord.Storage.{
  StopSign, StopSignEntry, stopsign_entry_with, Snapshot, CompactionErr, not_all_decided,
  not_current_leader, Result, ok, err, is_ok,
}
use ik2203_distributed_coord.Storage.Memory.{MemoryStorage}
use ik2203_distributed_coord.Storage.Internal.{set_stopsign, try_trim, try_snapshot}
use ik2203_distributed_coord.Messages.{
  PaxosMsg, PaxosMessage, Compaction, compaction, accept_stopsign, prepare_req,
}
use ik2203_distributed_coord.LeaderState.{
  LeaderState, set_accepted_stopsign, get_promised_followers, get_min_all_accepted_idx,
  reset_batch_accept_meta,
}

pub data Role : Type 0 where
  follower leader : Role

pub data Phase : Type 0 where
  prepare first_accept accept recover none : Phase

pub record Paxos (T S : Type 0) : Type 0 where
  pub storage : MemoryStorage T S  -- `internal_storage`
  pub config_id : ℕ  -- u32
  pub pid : ℕ
  pub peers : List ℕ
  pub role : Role  -- `state.0`
  pub phase : Phase  -- `state.1`
  pub leader : Ballot
  pub pending_proposals : List T
  pub pending_stopsign : Option StopSign
  pub outgoing : List (PaxosMessage T S)
  pub leader_state : LeaderState T S
  pub latest_accepted_meta : Option (Ballot × ℕ)

abbrev pub is_leader : Role → Bool
is_leader Role.leader = true
is_leader Role.follower = false

abbrev pub is_accept : Phase → Bool
is_accept Phase.accept = true
is_accept _ = false

abbrev pub is_prepare : Phase → Bool
is_prepare Phase.prepare = true
is_prepare _ = false

abbrev pub is_first_accept : Phase → Bool
is_first_accept Phase.first_accept = true
is_first_accept _ = false

abbrev stopsign_of : Option StopSignEntry → Option StopSign
stopsign_of Option.none = Option.none
stopsign_of (some x) = some x.stopsign

abbrev has_stopsign : Option StopSignEntry → Bool
has_stopsign Option.none = false
has_stopsign (some x) = true

abbrev decided_only : Option StopSignEntry → Option StopSign
decided_only Option.none = Option.none
decided_only (some ss) = if ss.decided then some ss.stopsign else Option.none

-- the index that the leader trims to, or its error
unfoldable pub trim_target : Option ℕ → ℕ → Result ℕ CompactionErr
trim_target Option.none min_all = ok min_all
trim_target (some idx) min_all = if leb idx min_all then ok idx else err (not_all_decided min_all)

module _ {T S : Type 0} where
  -- `self.outgoing.push(PaxosMessage { from: self.pid, to, msg })`
  unfoldable pub send : Paxos T S → ℕ → PaxosMsg T S → Paxos T S
  send s to msg = record s {
    outgoing = s.outgoing ++ record { from = s.pid; to = to; msg = msg } ∷ [];
  }

  -- the loops `for pid in .. { self.outgoing.push(..) }` with one message
  unfoldable pub send_all : Paxos T S → List ℕ → PaxosMsg T S → Paxos T S
  unfolding send
  send_all s [] msg = s
  send_all s (to ∷ rest) msg = send_all (send s to msg) rest msg

  unfoldable pub get_stopsign : Paxos T S → Option StopSign
  get_stopsign s = stopsign_of s.storage.stopsign

  unfoldable pub stopped : Paxos T S → Bool
  stopped s = has_stopsign s.storage.stopsign

  unfoldable pub is_reconfigured : Paxos T S → Option StopSign
  is_reconfigured s = decided_only s.storage.stopsign

  unfoldable pub accept_stopsign_entry : Paxos T S → StopSign → Outcome (Paxos T S)
  accept_stopsign_entry s ss = do
    let s' = record s { storage = set_stopsign s.storage (stopsign_entry_with ss false) }
    if is_leader s.role
        then (do
          ls ← set_accepted_stopsign s.leader_state s.pid
          done (record s' { leader_state = ls }))
        else done s'

  unfoldable pub send_accept_stopsign : Paxos T S → StopSign → Outcome (Paxos T S)
  send_accept_stopsign s ss = do
    pids ← get_promised_followers s.leader_state
    done (send_all s pids (accept_stopsign (record { n = s.leader_state.n_leader; ss = ss })))

  unfoldable pub fail_recovery : Paxos T S → Paxos T S
  fail_recovery s =
      send_all (record s { role = Role.follower; phase = Phase.recover }) s.peers prepare_req

  unfoldable pub trim_to :
      Paxos T S → Result ℕ CompactionErr → Outcome (Paxos T S × Result Unit CompactionErr)
  trim_to s (err e) = done (s, err e)
  trim_to s (ok idx) = do
    r ← try_trim s.storage idx
    let s' = record s { storage = r.0 }
    done ((if is_ok r.1 then send_all s' s.peers (compaction (Compaction.trim idx)) else s'), r.1)

  unfoldable pub trim : Paxos T S → Option ℕ → Outcome (Paxos T S × Result Unit CompactionErr)
  unfolding trim_target trim_to
  trim s trim_idx =
      if is_leader s.role
      then (do
        min_all ← get_min_all_accepted_idx s.leader_state
        trim_to s (trim_target trim_idx min_all))
      else done (s, err (not_current_leader s.leader.pid))

  unfoldable pub snapshot :
      ⦃snap : Snapshot T S⦄
      → Paxos T S
      → Option ℕ
      → Bool
      → Outcome (Paxos T S × Result Unit CompactionErr)
  snapshot s idx local_only = do
    r ← try_snapshot s.storage idx
    let s' = record s { storage = r.0 }
    done (
      (if not local_only && is_ok r.1
          then send_all s' s.peers (compaction (Compaction.snapshot idx))
          else s'),
      r.1,
    )

  -- `handle_compaction`: the results are ignored.
  unfoldable pub handle_compaction :
      ⦃snap : Snapshot T S⦄ → Paxos T S → Compaction → Outcome (Paxos T S)
  handle_compaction s (Compaction.trim idx) = do
    r ← try_trim s.storage idx
    done (record s { storage = r.0 })
  handle_compaction s (Compaction.snapshot idx) = do r ← snapshot s idx true; done r.0

  -- The messages are handed out, and both message caches are reset.
  unfoldable pub get_outgoing_msgs : Paxos T S → Paxos T S × List (PaxosMessage T S)
  get_outgoing_msgs s = (
    record s {
      outgoing = [];
      leader_state = reset_batch_accept_meta s.leader_state;
      latest_accepted_meta = Option.none;
    },
    s.outgoing,
  )
