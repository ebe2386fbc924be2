-- ===== src/Paxos/Sending.antt =====
-- omnipaxos_core/src/sequence_paxos/leader.rs: what the leader sends, and the forwarding of
-- proposals. The feature `batch_accept` is on, as it is by default.
use ik2203_distributed_coord.Prelude.{
  ℕ, ◌-◌, Bool, ◌&&◌, not, Option, none, some, List, [], ◌∷◌, ◌++◌, length, set, is_empty, ltb,
  ◌==◌, if◌then◌else◌, Outcome, done, ◌>>=◌, unwrap, index,
}
use ik2203_distributed_coord.Ballot.{Ballot, eq_ballot}
use ik2203_distributed_coord.Storage.{StopSign, SnapshotType, delta, Snapshot}
use ik2203_distributed_coord.Storage.Internal.{
  append_entry, append_entries, get_entries, get_suffix,
}
use ik2203_distributed_coord.Messages.{
  PaxosMsg, PaxosMessage, AcceptDecide, AcceptSync, accept_decide, first_accept, proposal_forward,
  forward_stopsign, accept_sync,
}
use ik2203_distributed_coord.LeaderState.{
  PromiseMetaData, get_promised_followers, set_batch_accept_meta, get_batch_accept_meta,
  set_accepted_idx, get_promise_meta, get_decided_idx,
}
use ik2203_distributed_coord.Paxos.{
  Paxos, Phase, send, send_all, get_stopsign, accept_stopsign_entry,
}

abbrev pub or_else : Option StopSign → StopSign → Option StopSign
or_else none ss = some ss
or_else (some old) ss = some old

module _ {T S : Type 0} where
  -- `self.leader.pid > 0 && self.leader.pid != self.pid`
  abbrev pub knows_leader : Paxos T S → Bool
  knows_leader s = ltb 0 s.leader.pid && not (s.leader.pid == s.pid)

  unfoldable pub forward_proposals : Paxos T S → List T → Paxos T S
  forward_proposals s entries =
      if knows_leader s
      then send s s.leader.pid (proposal_forward entries)
      else record s { pending_proposals = s.pending_proposals ++ entries }

  unfoldable pub forward_stopsign_to_leader : Paxos T S → StopSign → Paxos T S
  forward_stopsign_to_leader s ss =
      if knows_leader s
      then send s s.leader.pid (forward_stopsign ss)
      else record s { pending_stopsign = or_else s.pending_stopsign ss }

  unfoldable pub send_first_accept : Paxos T S → Outcome (Paxos T S)
  send_first_accept s = do
    pids ← get_promised_followers s.leader_state
    let s' = send_all s pids (first_accept (record { n = s.leader_state.n_leader }))
    done (record s' { phase = Phase.accept })

  unfoldable pub send_accept_and_cache : Paxos T S → ℕ → List T → Outcome (Paxos T S)
  send_accept_and_cache s to entries = do
    let acc : AcceptDecide T = record {
      n = s.leader_state.n_leader;
      decided_idx = s.leader_state.chosen_idx;
      entries = entries;
    }
    let s' = send s to (accept_decide acc)
    ls ← set_batch_accept_meta s.leader_state to (some (length s'.outgoing - 1))
    done (record s' { leader_state = ls })

  -- The cached message is extended if it is an AcceptDecide.
  unfoldable pub extend_cached :
      Paxos T S → ℕ → List T → ℕ → PaxosMessage T S → PaxosMsg T S → Outcome (Paxos T S)
  extend_cached s to entries i m (accept_decide a) = done (record s {
    outgoing =
        set s.outgoing i
          (record m { msg = accept_decide (record a { entries = a.entries ++ entries }) });
  })
  extend_cached s to entries i m _ = send_accept_and_cache s to entries

  unfoldable pub batch_at : Paxos T S → ℕ → List T → Option (Ballot × ℕ) → Outcome (Paxos T S)
  unfolding extend_cached
  batch_at s to entries none = send_accept_and_cache s to entries
  batch_at s to entries (some (n, i)) =
      if eq_ballot n s.leader_state.n_leader
      then (do m ← index s.outgoing i; extend_cached s to entries i m m.msg)
      else send_accept_and_cache s to entries

  -- the loop of `send_accept` and `send_batch_accept` over the promised followers
  unfoldable pub batch_all : Paxos T S → List T → List ℕ → Outcome (Paxos T S)
  unfolding batch_at
  batch_all s entries [] = done s
  batch_all s entries (to ∷ rest) = do
    meta ← get_batch_accept_meta s.leader_state to
    s' ← batch_at s to entries meta
    batch_all s' entries rest

  unfoldable pub send_accept : Paxos T S → T → Outcome (Paxos T S)
  send_accept s entry = do
    r ← append_entry s.storage entry
    ls ← set_accepted_idx s.leader_state s.pid r.1
    pids ← get_promised_followers ls
    batch_all (record s { storage = r.0; leader_state = ls }) (entry ∷ []) pids

  unfoldable pub send_batch_accept : Paxos T S → List T → Outcome (Paxos T S)
  send_batch_accept s entries = do
    r ← append_entries s.storage entries
    ls ← set_accepted_idx s.leader_state s.pid r.1
    pids ← get_promised_followers ls
    batch_all (record s { storage = r.0; leader_state = ls }) entries pids

  -- the snapshot, the suffix and the index that AcceptSync carries
  module _ ⦃snap : Snapshot T S⦄ where
    unfoldable pub sync_decided : Paxos T S → ℕ → Outcome (Option (SnapshotType S) × List T × ℕ)
    sync_decided s follower_decided_idx =
        if ltb follower_decided_idx s.storage.ld && snap.use_snapshots
        then (do
          diff_entries ← get_entries s.storage follower_decided_idx s.storage.ld
          d ← snap.create diff_entries
          suffix ← get_suffix s.storage s.storage.ld
          done (some (delta d), suffix, follower_decided_idx))
        else (do
          suffix ← get_suffix s.storage follower_decided_idx
          done (none, suffix, follower_decided_idx))

    unfoldable pub sync_item :
        Paxos T S → PromiseMetaData → Outcome (Option (SnapshotType S) × List T × ℕ)
    unfolding sync_decided
    sync_item s meta =
        if eq_ballot meta.n s.leader_state.max_promise_meta.n
          && ltb meta.accepted_idx s.leader_state.max_promise_meta.accepted_idx
        then (do sfx ← get_suffix s.storage meta.accepted_idx; done (none, sfx, meta.accepted_idx))
        else (do
          o ← get_decided_idx s.leader_state meta.pid
          follower_decided_idx ← unwrap o
          sync_decided s follower_decided_idx)

    unfoldable pub send_accsync : Paxos T S → ℕ → Outcome (Paxos T S)
    unfolding sync_item
    send_accsync s to = do
      meta ← get_promise_meta s.leader_state to
      item ← sync_item s meta
      let acc_sync : AcceptSync T S = record {
        n = s.leader_state.n_leader;
        decided_snapshot = item.0;
        suffix = item.1;
        sync_idx = item.2;
        decided_idx = s.storage.ld;
        stopsign = get_stopsign s;
      }
      done (send s meta.pid (accept_sync acc_sync))

  unfoldable pub adopt_pending_stopsign : Paxos T S → Option StopSign → Outcome (Paxos T S)
  adopt_pending_stopsign s none = done s
  adopt_pending_stopsign s (some ss) =
      accept_stopsign_entry (record s { pending_stopsign = none }) ss

  unfoldable pub append_pending_proposals : Paxos T S → Outcome (Paxos T S)
  append_pending_proposals s = if is_empty s.pending_proposals then done s else (do
    r ← append_entries s.storage s.pending_proposals
    ls ← set_accepted_idx s.leader_state s.pid r.1
    done (record s { pending_proposals = []; storage = r.0; leader_state = ls }))
