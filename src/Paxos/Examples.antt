-- ===== src/Paxos/Examples.antt =====
-- Runs of a replica of three: the theorems of Paxos at concrete states.
use ik2203_distributed_coord.Prelude.{
  all_nil, ℕ, ◌≡◌, refl, arith, ◌⊎◌, none, some, List, [], ◌∷◌, if◌then◌else◌, ltb, control,
  Outcome, done, panic, Returns, Ensures,
}
use ik2203_distributed_coord.Ballot.{Ballot, ballot_with, default, eq_ballot, le_ballot, lt_ballot}
use ik2203_distributed_coord.Ballot.Order.{Le, Le-refl}
use ik2203_distributed_coord.Storage.{no_snapshot}
use ik2203_distributed_coord.Storage.Memory.{empty_storage}
use ik2203_distributed_coord.Storage.Internal as I
use ik2203_distributed_coord.Messages.{
  Prepare, AcceptDecide, AcceptSync, Accepted, PaxosMessage, prepare,
}
use ik2203_distributed_coord.LeaderState.{PromiseMetaData, leader_state_with}
use ik2203_distributed_coord.Paxos.{Paxos, Role, Phase, send, get_stopsign}
use ik2203_distributed_coord.Paxos.Follower.{
  handle_prepare, promise_item, handle_acceptdecide, handle_acceptsync,
}
use ik2203_distributed_coord.Paxos.Leader.{handle_accepted, adopt_log}
use ik2203_distributed_coord.Paxos.Handle.{
  SequencePaxosConfig, sequence_paxos_with, max_pid_of, max_from, with_leader, new_replica, handle,
  dispatch,
}
use ik2203_distributed_coord.Paxos.Cached.{IsCached-replicate}
use ik2203_distributed_coord.Paxos.Rounds.{IsSound}
use ik2203_distributed_coord.Paxos.Reach.{Reach, here, next, receive, Reach-IsSound, n_prom-grows}
use ik2203_distributed_coord.Paxos.Quorum.{IsDecision, handle_accepted-decides}
use ik2203_distributed_coord.Paxos.Accepts.{Replies, handle_acceptdecide-accepts}
use ik2203_distributed_coord.Paxos.Synchronizes.{handle_acceptsync-log}
use ik2203_distributed_coord.Paxos.Adopts.{prepare_of, promise_item-adopted, later_round}
use ik2203_distributed_coord.Paxos.Starts.{sequence_paxos_with-storage}

abbrev config : SequencePaxosConfig
config = record {
  configuration_id = 1;
  pid = 1;
  peers = 2 ∷ 3 ∷ [];
  skip_prepare_use_leader = none;
}

abbrev start : Paxos ℕ Unit
start = record {
  storage = empty_storage ℕ Unit;
  config_id = 1;
  pid = 1;
  peers = 2 ∷ 3 ∷ [];
  role = Role.follower;
  phase = Phase.none;
  leader = default;
  pending_proposals = [];
  pending_stopsign = none;
  outgoing = [];
  leader_state = unfold leader_state_with in leader_state_with default none 3 2;
  latest_accepted_meta = none;
}

-- the promise of replica 1 to replica 2
abbrev prepare_1 : Prepare
prepare_1 = record {
  n = ballot_with 1 0 2;
  decided_idx = 0;
  n_accepted = default;
  accepted_idx = 0;
}

abbrev prepare_2 : PaxosMessage ℕ Unit
prepare_2 = record { from = 2; to = 1; msg = prepare prepare_1 }

abbrev or_start : Outcome (Paxos ℕ Unit) → Paxos ℕ Unit
or_start (done s) = s
or_start panic = start

abbrev promised : Paxos ℕ Unit
promised = or_start (handle ⦃snap = no_snapshot⦄ start prepare_2)

-- The definitions that the runs compute.
unfoldable runs : Unit {0}
unfolding sequence_paxos_with max_pid_of max_from with_leader new_replica leader_state_with handle
    dispatch handle_prepare promise_item le_ballot eq_ballot lt_ballot I.get_log_len send
    get_stopsign control
runs = tt

starts : sequence_paxos_with config (empty_storage ℕ Unit) ≡ done start
unfolding runs
starts = refl

answers_prepare : handle ⦃snap = no_snapshot⦄ start prepare_2 ≡ done promised
unfolding runs
answers_prepare = refl

promised_run : Reach ⦃snap = no_snapshot⦄ start promised
promised_run = next here (receive prepare_2 answers_prepare)

Reach-IsSound_example : IsSound promised
Reach-IsSound_example =
    Reach-IsSound ⦃snap = no_snapshot⦄ config (empty_storage ℕ Unit) start_le starts promised_run
  where
    start_le : Le default default
    start_le = Le-refl default

n_prom-grows_example : Le default promised.storage.n_prom
n_prom-grows_example = n_prom-grows ⦃snap = no_snapshot⦄ promised_run

-- A leader of round 5 in its Accept phase. Replica 2 has accepted up to 1.
abbrev round_5 : Ballot
round_5 = ballot_with 5 0 1

abbrev leading : Paxos ℕ Unit
leading = record start {
  storage = record (start.storage) { log = 7 ∷ 8 ∷ []; n_prom = round_5; acc_round = round_5 };
  role = Role.leader;
  phase = Phase.accept;
  leader = round_5;
  leader_state = record (leader_state_with round_5 (some (none ∷ some 0 ∷ some 0 ∷ [])) 3 2) {
    accepted_indexes = 2 ∷ 0 ∷ 0 ∷ [];
  };
}

abbrev accepted_2 : Accepted
accepted_2 = record { n = round_5; accepted_idx = 2 }

handle_accepted-decides_example :
    Ensures
      (λ t.
        ((t.leader_state.chosen_idx ≡ leading.leader_state.chosen_idx)
          × (t.storage.ld ≡ leading.storage.ld))
        ⊎ IsDecision leading accepted_2 t)
      (handle_accepted leading accepted_2 2)
handle_accepted-decides_example = handle_accepted-decides leading accepted_2 2

abbrev accepting : Paxos ℕ Unit
accepting = record leading { role = Role.follower; pid = 2 }

accepting-IsSound : IsSound accepting
unfolding leader_state_with
accepting-IsSound = record {
  accepted_le = Le-refl round_5;
  leads = λ e. absurd (cc e);
  own = λ e. absurd (cc e);
  cache = λ n i e. absurd (cc e);
  honest = all_nil;
  batches = IsCached-replicate [] 3;
}

abbrev decide_9 : AcceptDecide ℕ
decide_9 = record { n = round_5; decided_idx = 1; entries = 9 ∷ [] }

handle_acceptdecide-accepts_example :
    Returns
      (λ t.
        (t.storage.log ≡ 7 ∷ 8 ∷ 9 ∷ [])
        × (t.storage.ld ≡ (if ltb 0 1 then 1 else 0))
        × Replies accepting t round_5 3)
      (handle_acceptdecide accepting decide_9)
unfolding eq_ballot
handle_acceptdecide-accepts_example =
    handle_acceptdecide-accepts accepting decide_9 accepting-IsSound refl (omega arith)

-- A follower in its Prepare phase, whose log has the leader's first entry and another one.
abbrev preparing : Paxos ℕ Unit
preparing = record accepting {
  phase = Phase.prepare;
  storage = record (accepting.storage) { log = 7 ∷ 1 ∷ [] };
}

abbrev sync_1 : AcceptSync ℕ Unit
sync_1 = record {
  n = round_5;
  decided_snapshot = none;
  suffix = 8 ∷ [];
  sync_idx = 1;
  decided_idx = 1;
  stopsign = none;
}

handle_acceptsync-log_example :
    Returns
      (λ t. (t.storage.log ≡ 7 ∷ 8 ∷ []) × (t.storage.ld ≡ 1) × (t.storage.acc_round ≡ round_5))
      (handle_acceptsync ⦃snap = no_snapshot⦄ preparing sync_1 1)
unfolding eq_ballot
handle_acceptsync-log_example =
    handle_acceptsync-log ⦃snap = no_snapshot⦄ preparing sync_1 1 (7 ∷ 8 ∷ []) refl refl refl
      (omega arith) refl refl (omega arith)

-- A new leader that accepted two entries in an earlier round, of which one is decided.
abbrev behind : Paxos ℕ Unit
behind = record start { storage = record (start.storage) { log = 7 ∷ 1 ∷ []; ld = 1 } }

abbrev promise_meta : PromiseMetaData
promise_meta = record { n = round_5; accepted_idx = 2; pid = 2; stopsign = none }

promise_item-adopted_example :
    (suffix : List ℕ) × (promise_item ⦃snap = no_snapshot⦄ accepting
        (prepare_of behind.storage (ballot_with 6 0 1))
        round_5
        2
      ≡ done (none, suffix))
    × (adopt_log ⦃snap = no_snapshot⦄ behind promise_meta none suffix
        ≡ done (record (behind.storage) { log = 7 ∷ 8 ∷ [] }, 2))
unfolding lt_ballot
promise_item-adopted_example =
    promise_item-adopted ⦃snap = no_snapshot⦄ accepting behind (ballot_with 6 0 1) promise_meta refl
      refl (omega arith) (omega arith) refl (later_round refl (omega arith) refl)

-- A storage that had promised the fifth round.
sequence_paxos_with-storage_example :
    Ensures
      (λ s. s.storage ≡ (record (leading.storage) { n_prom = default }))
      (sequence_paxos_with config leading.storage)
sequence_paxos_with-storage_example = sequence_paxos_with-storage config leading.storage
