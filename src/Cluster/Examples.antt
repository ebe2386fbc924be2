-- ===== src/Cluster/Examples.antt =====
-- Three replicas: the first is elected, asks the second for a promise and gets it.
use ik2203_distributed_coord.Prelude.{
  ℕ, ◌≡◌, ◌≤◌, ◌<◌, ◌+◌, refl, arith, true, none, some, List, [], ◌∷◌, ◌++◌, Option, if◌then◌else◌,
  ◌==◌, control, Outcome, done, panic, get_elem?,
}
use ik2203_distributed_coord.Ballot.{Ballot, ballot_with, default, eq_ballot, le_ballot, lt_ballot}
use ik2203_distributed_coord.Ballot.Order.{Le, Lt}
use ik2203_distributed_coord.Storage.{no_snapshot}
use ik2203_distributed_coord.Storage.Memory.{empty_storage}
use ik2203_distributed_coord.Storage.Internal.{get_log_len, get_suffix}
use ik2203_distributed_coord.Paxos.Sending.{
  append_pending_proposals, adopt_pending_stopsign, send_accsync,
}
use ik2203_distributed_coord.Messages.{PaxosMessage, accept_decide, prepare_req}
use ik2203_distributed_coord.LeaderState.Votes.{vote_at, votes}
use ik2203_distributed_coord.LeaderState.{
  leader_state_with, set_promise, pid_to_idx, keep_max_promise, gt_meta, reset_batch_accept_meta,
  get_promised_followers, get_promise_meta, get_decided_idx,
}
use ik2203_distributed_coord.Paxos.{Paxos, Role, Phase, get_outgoing_msgs, send, send_all, stopped}
use ik2203_distributed_coord.Paxos.Handle.{
  SequencePaxosConfig, new_replica, sequence_paxos_with, with_leader, max_pid_of, max_from, handle,
  dispatch, handle_promise,
}
use ik2203_distributed_coord.Paxos.Leader.{
  handle_leader, become_leader, handle_promise_prepare, handle_majority_promises, max_decided,
  adopt_max_promise, send_accsync_all,
}
use ik2203_distributed_coord.Paxos.Follower.{handle_prepare}
use ik2203_distributed_coord.Paxos.Reach.{receive, elected, fetch}
use ik2203_distributed_coord.Cluster.{
  Cluster, update, IsStart, ClusterStep, step, ClusterReach, start, later,
}
use ik2203_distributed_coord.Cluster.Invariant.{IsTrue}
use ik2203_distributed_coord.Cluster.Safety.{
  leaders-differ, answers-promised, leader-followed, leaders-meet, older_round-ignored,
  IsEstablished,
}

abbrev config : ℕ → SequencePaxosConfig
config k = record {
  configuration_id = 1;
  pid = k;
  peers = (if k == 1 then 2 else 1) ∷ (if k == 3 then 2 else 3) ∷ [];
  skip_prepare_use_leader = none;
}

abbrev three : Cluster ℕ Unit
three = record {
  nodes = λ k.
      new_replica (config k) (empty_storage ℕ Unit) (max_from k (config k).peers) Role.follower
        Phase.none default none;
  wire = [];
}

three_max : (k : ℕ) → 1 ≤ k → k ≤ 3 → max_pid_of (config k).pid (config k).peers ≡ done 3
unfolding max_pid_of max_from control
three_max k l u = ground arith

three-IsStart : IsStart 3 three
unfolding sequence_paxos_with with_leader max_pid_of control le_ballot eq_ballot lt_ballot
three-IsStart = record {
  config = config;
  storage = λ k. empty_storage ℕ Unit;
  pid = λ k. refl;
  leaderless = λ k. refl;
  peers = λ k l u. refl;
  max_pid = three_max;
  fresh = λ k. refl;
  node = λ k. refl;
  silent = refl;
}

abbrev or_default : Paxos ℕ Unit → Outcome (Paxos ℕ Unit) → Paxos ℕ Unit
or_default s (done t) = t
or_default s panic = s

abbrev after : Cluster ℕ Unit → ℕ → Paxos ℕ Unit → List (PaxosMessage ℕ Unit) → Cluster ℕ Unit
after c k t ms = record { nodes = update c.nodes k t; wire = c.wire ++ ms }

abbrev round_1 : Ballot
round_1 = ballot_with 1 0 1

abbrev c1 : Cluster ℕ Unit
c1 = after three 1 (or_default (three.nodes 1) (handle_leader (three.nodes 1) round_1)) []

abbrev fetched : Cluster ℕ Unit → ℕ → Cluster ℕ Unit
fetched c k = after c k (get_outgoing_msgs (c.nodes k)).0 (get_outgoing_msgs (c.nodes k)).1

abbrev delivered : Cluster ℕ Unit → ℕ → PaxosMessage ℕ Unit → Cluster ℕ Unit
delivered c k m = after c k (or_default (c.nodes k) (handle ⦃snap = no_snapshot⦄ (c.nodes k) m)) []

elects : ClusterStep ⦃snap = no_snapshot⦄ three c1
unfolding handle_leader become_leader leader_state_with new_replica le_ballot eq_ballot lt_ballot
    control max_from get_log_len stopped set_promise pid_to_idx keep_max_promise gt_meta
elects = step 1 (elected round_1 refl) tt

abbrev c2 : Cluster ℕ Unit
c2 = fetched c1 1

asks : ClusterStep ⦃snap = no_snapshot⦄ c1 c2
asks = step 1 fetch tt

abbrev no_message : PaxosMessage ℕ Unit
no_message = record { from = 0; to = 0; msg = prepare_req }

abbrev or_none : Option (PaxosMessage ℕ Unit) → PaxosMessage ℕ Unit
or_none none = no_message
or_none (some m) = m

-- the Prepare message to the second replica
abbrev asked : PaxosMessage ℕ Unit
asked = or_none (get_elem? c2.wire 0)

abbrev c3 : Cluster ℕ Unit
c3 = delivered c2 2 asked

promises : ClusterStep ⦃snap = no_snapshot⦄ c2 c3
unfolding handle_leader become_leader leader_state_with new_replica le_ballot eq_ballot lt_ballot
    control max_from get_log_len stopped set_promise pid_to_idx keep_max_promise gt_meta
    get_outgoing_msgs handle dispatch handle_prepare send_all send
promises = step 2 (receive asked refl) (record { at = 0; found = refl }, refl)

abbrev c4 : Cluster ℕ Unit
c4 = fetched c3 2

answers : ClusterStep ⦃snap = no_snapshot⦄ c3 c4
answers = step 2 fetch tt

-- the Promise of the second replica
abbrev promised : PaxosMessage ℕ Unit
promised = or_none (get_elem? c4.wire 2)

abbrev c5 : Cluster ℕ Unit
c5 = delivered c4 1 promised

counts : ClusterStep ⦃snap = no_snapshot⦄ c4 c5
unfolding handle_leader become_leader leader_state_with new_replica le_ballot eq_ballot lt_ballot
    control max_from get_log_len stopped set_promise pid_to_idx keep_max_promise gt_meta
    get_outgoing_msgs handle dispatch handle_prepare send_all send handle_promise
    handle_promise_prepare reset_batch_accept_meta handle_majority_promises max_decided
    adopt_max_promise append_pending_proposals adopt_pending_stopsign get_promised_followers
    send_accsync_all send_accsync get_promise_meta get_decided_idx get_suffix
counts = step 1 (receive promised refl) (record { at = 2; found = refl }, refl)

run : ClusterReach ⦃snap = no_snapshot⦄ three c5
run = later (later (later (later (later start elects) asks) promises) answers) counts

established : IsEstablished (c5.nodes 1)
unfolding handle_leader become_leader leader_state_with new_replica le_ballot eq_ballot lt_ballot
    control max_from get_log_len stopped set_promise pid_to_idx keep_max_promise gt_meta
    get_outgoing_msgs handle dispatch handle_prepare send_all send handle_promise
    handle_promise_prepare reset_batch_accept_meta handle_majority_promises max_decided
    adopt_max_promise append_pending_proposals adopt_pending_stopsign get_promised_followers
    send_accsync_all send_accsync get_promise_meta get_decided_idx get_suffix
established = record { leads = refl; prepared = λ e. absurd (cc e) }

voted : vote_at (c5.nodes 1).leader_state.promises_meta 1 ≡ true
unfolding handle_leader become_leader leader_state_with new_replica le_ballot eq_ballot lt_ballot
    control max_from get_log_len stopped set_promise pid_to_idx keep_max_promise gt_meta
    get_outgoing_msgs handle dispatch handle_prepare send_all send handle_promise
    handle_promise_prepare reset_batch_accept_meta handle_majority_promises max_decided
    adopt_max_promise append_pending_proposals adopt_pending_stopsign get_promised_followers
    send_accsync_all send_accsync get_promise_meta get_decided_idx get_suffix vote_at
voted = refl

leads_round_1 : (c5.nodes 1).leader_state.n_leader ≡ round_1
unfolding handle_leader become_leader leader_state_with new_replica le_ballot eq_ballot lt_ballot
    control max_from get_log_len stopped set_promise pid_to_idx keep_max_promise gt_meta
    get_outgoing_msgs handle dispatch handle_prepare send_all send handle_promise
    handle_promise_prepare reset_batch_accept_meta handle_majority_promises max_decided
    adopt_max_promise append_pending_proposals adopt_pending_stopsign get_promised_followers
    send_accsync_all send_accsync get_promise_meta get_decided_idx get_suffix
leads_round_1 = refl

leaders-differ_example : ◌≡◌ {A = ℕ} 1 1
leaders-differ_example =
    leaders-differ ⦃snap = no_snapshot⦄ three-IsStart run 1 1 established.leads established.leads
      refl

sent : get_elem? c5.wire 2 ≡ some promised
unfolding handle_leader become_leader leader_state_with new_replica le_ballot eq_ballot lt_ballot
    control max_from get_log_len stopped set_promise pid_to_idx keep_max_promise gt_meta
    get_outgoing_msgs handle dispatch handle_prepare send_all send
sent = refl

answers-promised_example : IsTrue c5.nodes promised
answers-promised_example =
    answers-promised ⦃snap = no_snapshot⦄ three-IsStart run promised
      (record { at = 2; found = sent })

leader-followed_example :
    (3 < votes (c5.nodes 1).leader_state + votes (c5.nodes 1).leader_state)
    × Le (c5.nodes 1).leader_state.n_leader (c5.nodes 2).storage.n_prom
leader-followed_example =
    leader-followed ⦃snap = no_snapshot⦄ three-IsStart run 1 1 (omega arith) (omega arith)
      established voted

leaders-meet_example :
    (i : ℕ) × (vote_at (c5.nodes 1).leader_state.promises_meta i ≡ true)
    × (vote_at (c5.nodes 1).leader_state.promises_meta i ≡ true)
leaders-meet_example =
    leaders-meet ⦃snap = no_snapshot⦄ three-IsStart run 1 1 (omega arith) (omega arith)
      (omega arith) (omega arith) established established

abbrev late : PaxosMessage ℕ Unit
late = record {
  from = 3;
  to = 2;
  msg = accept_decide (record { n = default; decided_idx = 0; entries = 7 ∷ [] });
}

older : Lt default (c5.nodes 1).leader_state.n_leader
unfolding lt_ballot
older = rw leads_round_1 refl

older_round-ignored_example : handle ⦃snap = no_snapshot⦄ (c5.nodes 2) late ≡ done (c5.nodes 2)
older_round-ignored_example =
    older_round-ignored ⦃snap = no_snapshot⦄ three-IsStart run 1 1 established.leads voted default
      late older refl
