-- ===== src/Paxos/Leader.antt =====
-- omnipaxos_core/src/sequence_paxos/leader.rs: the handlers of a leader.
use ik2203_distributed_coord.Prelude.{
  ℕ, Bool, true, false, ◌&&◌, ◌||◌, Option, none, some, List, [], ◌∷◌, ◌++◌, set, ltb, ◌==◌,
  if◌then◌else◌, Outcome, done, panic, ◌>>=◌, unwrap, index,
}
use ik2203_distributed_coord.Ballot.{Ballot, eq_ballot, le_ballot}
use ik2203_distributed_coord.Storage.{StopSign, SnapshotType, complete, delta, phantom, Snapshot}
use ik2203_distributed_coord.Storage.Memory.{MemoryStorage}
use ik2203_distributed_coord.Storage.Internal.{
  append_entries, append_on_decided_prefix, set_promise, set_decided_idx, set_accepted_round,
  get_log_len, set_snapshot, merge_snapshot,
}
use ik2203_distributed_coord.Messages.{
  Prepare, Promise, Accepted, Decide, AcceptedStopSign, DecideStopSign, PaxosMsg, PaxosMessage,
  prepare, accept_decide, decide, decide_stopsign,
}
use ik2203_distributed_coord.LeaderState
use ik2203_distributed_coord.LeaderState.{
  LeaderState, PromiseMetaData, leader_state_with, get_promised_followers, set_batch_accept_meta,
  get_batch_accept_meta, set_accepted_idx, set_accepted_stopsign, is_chosen, is_stopsign_chosen,
  get_decided_idx,
}
use ik2203_distributed_coord.Paxos.{
  Paxos, Role, Phase, is_leader, is_accept, send, send_all, stopped, get_stopsign,
  accept_stopsign_entry, send_accept_stopsign,
}
use ik2203_distributed_coord.Paxos.Sending.{
  forward_proposals, or_else, forward_stopsign_to_leader, send_first_accept, send_batch_accept,
  send_accsync, adopt_pending_stopsign, append_pending_proposals,
}
use ik2203_distributed_coord.Paxos.Follower.{handle_decide, handle_decide_stopsign}

-- `iter().max()` over options, with `None` the least; the outer `none` is the empty list
unfoldable pub max_option : Option ℕ → Option ℕ → Option ℕ
max_option none b = b
max_option (some a) none = some a
max_option (some a) (some b) = some (if ltb a b then b else a)

unfoldable pub max_decided : List (Option ℕ) → Option ℕ
unfolding max_option
max_decided [] = none
max_decided (x ∷ xs) = max_option x (max_decided xs)

abbrev no_stopsign : Option StopSign → Bool
no_stopsign none = true
no_stopsign (some ss) = false

module _ {T S : Type 0} where
  -- the part of `handle_leader` in which this node is the new leader
  unfoldable pub become_leader : Paxos T S → Ballot → Outcome (Paxos T S)
  become_leader s n = do
    let st = set_promise s.storage n
    accepted_idx ← get_log_len st
    let my_promise : Promise T S = record {
      n = n;
      n_accepted = st.acc_round;
      decided_snapshot = none;
      suffix = [];
      decided_idx = st.ld;
      accepted_idx = accepted_idx;
      stopsign = get_stopsign s;
    }
    r ←
        LeaderState.set_promise
          (leader_state_with n none s.leader_state.max_pid s.leader_state.majority) my_promise s.pid
          true
    let s' = record s {
      leader_state = r.0;
      leader = n;
      storage = st;
      role = Role.leader;
      phase = Phase.prepare;
    }
    let prep : Prepare = record {
      n = n;
      decided_idx = st.ld;
      n_accepted = st.acc_round;
      accepted_idx = accepted_idx;
    }
    done (send_all s' s.peers (prepare prep))

  unfoldable pub handle_leader : Paxos T S → Ballot → Outcome (Paxos T S)
  unfolding become_leader
  handle_leader s n =
      if le_ballot n s.leader_state.n_leader || le_ballot n s.storage.n_prom
      then done s
      else (let s' = (if stopped s then record s { pending_proposals = [] } else s) in
          if s.pid == n.pid then become_leader s' n else done (record s' { role = Role.follower }))

  unfoldable pub handle_preparereq : Paxos T S → ℕ → Outcome (Paxos T S)
  handle_preparereq s from =
      if is_leader s.role
      then (do
        ls ← LeaderState.set_decided_idx s.leader_state from none
        ls' ← set_batch_accept_meta ls from none
        accepted_idx ← get_log_len s.storage
        let prep : Prepare = record {
          n = ls'.n_leader;
          decided_idx = s.storage.ld;
          n_accepted = s.storage.acc_round;
          accepted_idx = accepted_idx;
        }
        done (send (record s { leader_state = ls' }) from (prepare prep)))
      else done s

  -- the match on `self.state` of `handle_forwarded_proposal`
  unfoldable pub propose_in : Role → Phase → Paxos T S → List T → Outcome (Paxos T S)
  propose_in Role.leader Phase.prepare s entries =
      done (record s { pending_proposals = s.pending_proposals ++ entries })
  propose_in Role.leader Phase.accept s entries = send_batch_accept s entries
  propose_in Role.leader Phase.first_accept s entries = do
    s' ← send_first_accept s
    send_batch_accept s' entries
  propose_in _ _ s entries = done (forward_proposals s entries)

  unfoldable pub handle_forwarded_proposal : Paxos T S → List T → Outcome (Paxos T S)
  unfolding propose_in
  handle_forwarded_proposal s entries =
      if stopped s then done s else propose_in s.role s.phase s entries

  -- `accept_stopsign`, then `send_accept_stopsign`
  unfoldable pub propose_stopsign : Paxos T S → StopSign → Outcome (Paxos T S)
  propose_stopsign s ss = do s' ← accept_stopsign_entry s ss; send_accept_stopsign s' ss

  unfoldable pub stopsign_in : Role → Phase → Paxos T S → StopSign → Outcome (Paxos T S)
  stopsign_in Role.leader Phase.prepare s ss =
      done (record s { pending_stopsign = or_else s.pending_stopsign ss })
  stopsign_in Role.leader Phase.accept s ss =
      if no_stopsign s.pending_stopsign then propose_stopsign s ss else done s
  stopsign_in Role.leader Phase.first_accept s ss = do
    s' ← send_first_accept s
    propose_stopsign s' ss
  stopsign_in _ _ s ss = done (forward_stopsign_to_leader s ss)

  unfoldable pub handle_forwarded_stopsign : Paxos T S → StopSign → Outcome (Paxos T S)
  unfolding stopsign_in
  handle_forwarded_stopsign s ss = if stopped s then done s else stopsign_in s.role s.phase s ss

  -- the StopSign of the greatest promise, or else what was proposed meanwhile
  unfoldable pub adopt_or_propose : Paxos T S → Option StopSign → Outcome (Paxos T S)
  adopt_or_propose s (some ss) = accept_stopsign_entry s ss
  adopt_or_propose s none = do
    s' ← append_pending_proposals s
    adopt_pending_stopsign s' s'.pending_stopsign

  module _ ⦃snap : Snapshot T S⦄ where
    -- the entries of the greatest promise
    unfoldable pub adopt_snapshot :
        MemoryStorage T S → ℕ → SnapshotType S → Outcome (MemoryStorage T S)
    adopt_snapshot st idx (complete c) = set_snapshot st idx c
    adopt_snapshot st idx (delta d) = merge_snapshot st idx d
    adopt_snapshot st idx phantom = panic

    unfoldable pub adopt_log :
        Paxos T S
        → PromiseMetaData
        → Option (SnapshotType S)
        → List T
        → Outcome (MemoryStorage T S × ℕ)
    adopt_log s meta (some snapshot) suffix = do
      o ← get_decided_idx s.leader_state meta.pid
      idx ← unwrap o
      st ← adopt_snapshot s.storage idx snapshot
      append_entries st suffix
    adopt_log s meta none suffix =
        if eq_ballot meta.n s.storage.acc_round
        then append_entries s.storage suffix
        else append_on_decided_prefix s.storage suffix

    unfoldable pub adopt_max_promise :
        Paxos T S
        → Option (Option (SnapshotType S) × List T)
        → Option StopSign
        → Outcome (Paxos T S)
    unfolding adopt_snapshot adopt_log adopt_or_propose
    adopt_max_promise s (some (snapshot, suffix)) max_stopsign = do
      r ← adopt_log s s.leader_state.max_promise_meta snapshot suffix
      adopt_or_propose (record s { storage = r.0 }) max_stopsign
    adopt_max_promise s none max_stopsign = adopt_or_propose s none

    -- `for pid in get_promised_followers() { self.send_accsync(pid) }`
    unfoldable pub send_accsync_all : Paxos T S → List ℕ → Outcome (Paxos T S)
    send_accsync_all s [] = done s
    send_accsync_all s (to ∷ rest) = do s' ← send_accsync s to; send_accsync_all s' rest

    unfoldable pub handle_majority_promises : Paxos T S → Outcome (Paxos T S)
    handle_majority_promises s = do
      let ls = s.leader_state
      let meta = ls.max_promise_meta
      let s1 = record s {
        role = Role.leader;
        phase = Phase.accept;
        leader_state = record ls {
          max_promise_meta = record meta { stopsign = none };
          max_promise = none;
        };
      }
      decided_idx ← unwrap (max_decided ls.decided_indexes)
      s2 ← adopt_max_promise s1 ls.max_promise meta.stopsign
      let st = set_decided_idx (set_accepted_round s2.storage s2.leader_state.n_leader) decided_idx
      pids ← get_promised_followers s2.leader_state
      send_accsync_all (record s2 { storage = st }) pids

    unfoldable pub handle_promise_prepare : Paxos T S → Promise T S → ℕ → Outcome (Paxos T S)
    handle_promise_prepare s prom from =
        if eq_ballot prom.n s.leader_state.n_leader
        then (do
          r ← LeaderState.set_promise s.leader_state prom from true
          let s' = record s { leader_state = r.0 }
          if r.1 then handle_majority_promises s' else done s')
        else done s

    unfoldable pub handle_promise_accept : Paxos T S → Promise T S → ℕ → Outcome (Paxos T S)
    handle_promise_accept s prom from =
        if eq_ballot prom.n s.leader_state.n_leader
        then (do
          r ← LeaderState.set_promise s.leader_state prom from false
          send_accsync (record s { leader_state = r.0 }) from)
        else done s

  -- One follower is told of a decision: in its cached AcceptDecide, or by a Decide.
  unfoldable pub decide_cached :
      Paxos T S → ℕ → Decide → ℕ → PaxosMessage T S → PaxosMsg T S → Paxos T S
  decide_cached s to d i m (accept_decide a) = record s {
    outgoing =
        set s.outgoing i
          (record m { msg = accept_decide (record a { decided_idx = s.leader_state.chosen_idx }) });
  }
  decide_cached s to d i m _ = send s to (decide d)

  unfoldable pub decide_at : Paxos T S → ℕ → Decide → Option (Ballot × ℕ) → Outcome (Paxos T S)
  unfolding decide_cached
  decide_at s to d none = done (send s to (decide d))
  decide_at s to d (some (n, i)) =
      if eq_ballot n s.leader_state.n_leader
      then (do m ← index s.outgoing i; done (decide_cached s to d i m m.msg))
      else done (send s to (decide d))

  unfoldable pub decide_all : Paxos T S → Decide → List ℕ → Outcome (Paxos T S)
  unfolding decide_at
  decide_all s d [] = done s
  decide_all s d (to ∷ rest) = do
    meta ← get_batch_accept_meta s.leader_state to
    s' ← decide_at s to d meta
    decide_all s' d rest

  unfoldable pub handle_accepted : Paxos T S → Accepted → ℕ → Outcome (Paxos T S)
  handle_accepted s acc from =
      if eq_ballot acc.n s.leader_state.n_leader && (is_leader s.role && is_accept s.phase)
      then (do
        ls ← set_accepted_idx s.leader_state from acc.accepted_idx
        if ltb ls.chosen_idx acc.accepted_idx && is_chosen ls acc.accepted_idx
            then (do
              let ls' = record ls { chosen_idx = acc.accepted_idx }
              let d : Decide = record { n = ls'.n_leader; decided_idx = ls'.chosen_idx }
              pids ← get_promised_followers ls'
              s' ← decide_all (record s { leader_state = ls' }) d pids
              done (handle_decide s' d))
            else done (record s { leader_state = ls }))
      else done s

  unfoldable pub handle_accepted_stopsign : Paxos T S → AcceptedStopSign → ℕ → Outcome (Paxos T S)
  handle_accepted_stopsign s acc from =
      if eq_ballot acc.n s.leader_state.n_leader && (is_leader s.role && is_accept s.phase)
      then (do
        ls ← set_accepted_stopsign s.leader_state from
        let s1 = record s { leader_state = ls }
        if is_stopsign_chosen ls
            then (do
              let d : DecideStopSign = record { n = ls.n_leader }
              s2 ← handle_decide_stopsign s1 d
              pids ← get_promised_followers s2.leader_state
              done (send_all s2 pids (decide_stopsign d)))
            else done s1)
      else done s
