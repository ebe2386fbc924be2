-- ===== src/Paxos/Follower.antt =====
-- omnipaxos_core/src/sequence_paxos/follower.rs: the handlers of a follower.
use ik2203_distributed_coord.Prelude.{
  ℕ, Bool, true, ◌&&◌, not, Option, none, some, List, [], length, set, is_empty, ltb, if◌then◌else◌,
  Outcome, done, panic, ◌>>=◌, unwrap, index, add_u64,
}
use ik2203_distributed_coord.Ballot.{Ballot, eq_ballot, lt_ballot, le_ballot}
use ik2203_distributed_coord.Storage.{
  StopSign, StopSignEntry, SnapshotType, complete, delta, phantom, Snapshot,
}
use ik2203_distributed_coord.Storage.Memory.{MemoryStorage}
use ik2203_distributed_coord.Storage.Internal.{
  append_entries, append_on_prefix, set_promise, set_decided_idx, set_accepted_round, set_stopsign,
  get_log_len, get_suffix, set_snapshot, create_diff_snapshot, merge_snapshot,
}
use ik2203_distributed_coord.Messages.{
  Prepare, Promise, AcceptSync, FirstAccept, AcceptDecide, Decide, AcceptStopSign, DecideStopSign,
  PaxosMsg, PaxosMessage, promise, accepted, accepted_stopsign,
}
use ik2203_distributed_coord.Paxos.{
  Paxos, Role, Phase, is_leader, is_accept, is_prepare, is_first_accept, send, get_stopsign,
  accept_stopsign_entry,
}
use ik2203_distributed_coord.Paxos.Sending.{forward_proposals}

module _ {T S : Type 0} where
  -- `self.state == (Role::Follower, Phase::Prepare)` and the like, with the promised round
  abbrev pub following : Paxos T S → Ballot → (Phase → Bool) → Bool
  following s n in_phase =
      eq_ballot s.storage.n_prom n && (not (is_leader s.role) && in_phase s.phase)

  module _ ⦃snap : Snapshot T S⦄ where
    -- what a Promise carries beyond the leader's log
    unfoldable pub promise_behind : Paxos T S → ℕ → Outcome (Option (SnapshotType S) × List T)
    promise_behind s ld =
        if ltb ld s.storage.ld && snap.use_snapshots
        then (do
          d ← create_diff_snapshot s.storage ld s.storage.ld
          suffix ← get_suffix s.storage s.storage.ld
          done (some d, suffix))
        else (do suffix ← get_suffix s.storage ld; done (none, suffix))

    unfoldable pub promise_item :
        Paxos T S → Prepare → Ballot → ℕ → Outcome (Option (SnapshotType S) × List T)
    unfolding promise_behind
    promise_item s prep na accepted_idx =
        if lt_ballot prep.n_accepted na
        then promise_behind s prep.decided_idx
        else if eq_ballot na prep.n_accepted && ltb prep.accepted_idx accepted_idx
        then (do suffix ← get_suffix s.storage prep.accepted_idx; done (none, suffix))
        else done (none, [])

    unfoldable pub handle_prepare : Paxos T S → Prepare → ℕ → Outcome (Paxos T S)
    unfolding promise_item
    handle_prepare s prep from =
        if le_ballot s.storage.n_prom prep.n
        then (do
          let s' = record s {
            leader = prep.n;
            storage = set_promise s.storage prep.n;
            role = Role.follower;
            phase = Phase.prepare;
          }
          accepted_idx ← get_log_len s'.storage
          item ← promise_item s' prep s'.storage.acc_round accepted_idx
          let prom : Promise T S = record {
            n = prep.n;
            n_accepted = s'.storage.acc_round;
            decided_snapshot = item.0;
            suffix = item.1;
            decided_idx = s'.storage.ld;
            accepted_idx = accepted_idx;
            stopsign = get_stopsign s';
          }
          done (send s' from (promise prom)))
        else done s

    -- the log part of an AcceptSync
    unfoldable pub sync_log :
        MemoryStorage T S
        → AcceptSync T S
        → Option (SnapshotType S)
        → Outcome (MemoryStorage T S × ℕ)
    sync_log st accsync none = append_on_prefix st accsync.sync_idx accsync.suffix
    sync_log st accsync (some (complete c)) = do
      st' ← set_snapshot st accsync.decided_idx c
      append_entries st' accsync.suffix
    sync_log st accsync (some (delta d)) = do
      st' ← merge_snapshot st accsync.decided_idx d
      append_entries st' accsync.suffix
    sync_log st accsync (some phantom) = panic

  unfoldable pub forward_pending_proposals : Paxos T S → Paxos T S
  forward_pending_proposals s =
      if is_empty s.pending_proposals
      then s
      else forward_proposals (record s { pending_proposals = [] }) s.pending_proposals

  -- A StopSign of the leader replaces one that is not decided.
  unfoldable pub adopt_stopsign : Paxos T S → StopSign → Option StopSignEntry → Outcome (Paxos T S)
  adopt_stopsign s ss none = accept_stopsign_entry s ss
  adopt_stopsign s ss (some mine) = if mine.decided then done s else accept_stopsign_entry s ss

  unfoldable pub sync_stopsign :
      Paxos T S → AcceptSync T S → ℕ → Option StopSign → Outcome (Paxos T S)
  unfolding adopt_stopsign
  sync_stopsign s accsync from none = done (forward_pending_proposals s)
  sync_stopsign s accsync from (some ss) = do
    s' ← adopt_stopsign s ss s.storage.stopsign
    done (send s' from (accepted_stopsign (record { n = accsync.n })))

  unfoldable pub handle_acceptsync :
      ⦃snap : Snapshot T S⦄ → Paxos T S → AcceptSync T S → ℕ → Outcome (Paxos T S)
  unfolding sync_log sync_stopsign
  handle_acceptsync s accsync from =
      if following s accsync.n is_prepare
      then (do
        r ← sync_log s.storage accsync accsync.decided_snapshot
        let st = set_decided_idx (set_accepted_round r.0 accsync.n) accsync.decided_idx
        let s1 = record s {
          storage = st;
          role = Role.follower;
          phase = Phase.accept;
          latest_accepted_meta = some (accsync.n, length s.outgoing);
        }
        let s2 = send s1 from (accepted (record { n = accsync.n; accepted_idx = r.1 }))
        s3 ← sync_stopsign s2 accsync from accsync.stopsign
        done (record s3 { storage = set_decided_idx s3.storage accsync.decided_idx }))
      else done s

  unfoldable pub handle_firstaccept : Paxos T S → FirstAccept → Paxos T S
  handle_firstaccept s f =
      if following s f.n is_first_accept
      then forward_pending_proposals
          (record s { storage = set_accepted_round s.storage f.n; phase = Phase.accept })
      else s

  -- The cached Accepted message takes the new index; any other cached message is a panic.
  unfoldable pub update_accepted :
      Paxos T S → ℕ → ℕ → PaxosMessage T S → PaxosMsg T S → Outcome (Paxos T S)
  update_accepted s i accepted_idx m (accepted a) = done (record s {
    outgoing =
        set s.outgoing i (record m { msg = accepted (record a { accepted_idx = accepted_idx }) });
  })
  update_accepted s i accepted_idx m _ = panic

  unfoldable pub push_accepted : Paxos T S → Ballot → ℕ → Paxos T S
  push_accepted s n accepted_idx =
      send (record s { latest_accepted_meta = some (n, length s.outgoing) }) s.leader.pid
        (accepted (record { n = n; accepted_idx = accepted_idx }))

  unfoldable pub reply_accepted : Paxos T S → Ballot → ℕ → Option (Ballot × ℕ) → Outcome (Paxos T S)
  unfolding update_accepted push_accepted
  reply_accepted s n accepted_idx none = done (push_accepted s n accepted_idx)
  reply_accepted s n accepted_idx (some (round, i)) =
      if eq_ballot round n
      then (do m ← index s.outgoing i; update_accepted s i accepted_idx m m.msg)
      else done (push_accepted s n accepted_idx)

  unfoldable pub accept_entries : Paxos T S → Ballot → List T → Outcome (Paxos T S)
  accept_entries s n entries = do
    r ← append_entries s.storage entries
    reply_accepted (record s { storage = r.0 }) n r.1 s.latest_accepted_meta

  unfoldable pub handle_acceptdecide : Paxos T S → AcceptDecide T → Outcome (Paxos T S)
  handle_acceptdecide s acc =
      if following s acc.n is_accept
      then (do
        s' ← accept_entries s acc.n acc.entries
        done (
            if ltb s'.storage.ld acc.decided_idx
            then record s' { storage = set_decided_idx s'.storage acc.decided_idx }
            else s'))
      else done s

  unfoldable pub handle_accept_stopsign : Paxos T S → AcceptStopSign → Outcome (Paxos T S)
  handle_accept_stopsign s acc_ss =
      if following s acc_ss.n is_accept
      then (do
        s' ← accept_stopsign_entry s acc_ss.ss
        done (send s' s'.leader.pid (accepted_stopsign (record { n = acc_ss.n }))))
      else done s

  unfoldable pub handle_decide : Paxos T S → Decide → Paxos T S
  handle_decide s dec =
      if eq_ballot s.storage.n_prom dec.n && is_accept s.phase
      then record s { storage = set_decided_idx s.storage dec.decided_idx }
      else s

  unfoldable pub handle_decide_stopsign : Paxos T S → DecideStopSign → Outcome (Paxos T S)
  handle_decide_stopsign s dec =
      if eq_ballot s.storage.n_prom dec.n && is_accept s.phase
      then (do
        ss ← unwrap s.storage.stopsign
        let st = set_stopsign s.storage (record ss { decided = true })
        len ← get_log_len st
        idx ← add_u64 len 1
        done (record s { storage = set_decided_idx st idx }))
      else done s
