-- ===== src/Exchange/Examples.antt =====
-- A server of two fetches a heartbeat from its replica.
use ik2203_distributed_coord.Prelude.{ℕ, ◌≡◌, refl, true, none, [], ◌∷◌, Outcome, done, panic}
use ik2203_distributed_coord.Ballot.{ballot_with, default}
use ik2203_distributed_coord.Storage.{no_snapshot}
use ik2203_distributed_coord.Storage.Memory.{empty_storage}
use ik2203_distributed_coord.LeaderState.{leader_state_with}
use ik2203_distributed_coord.Paxos.{Role, Phase}
use ik2203_distributed_coord.Ble.{requests}
use ik2203_distributed_coord.Omni.{OmniPaxos}
use ik2203_distributed_coord.Simo.{new_simo}
use ik2203_distributed_coord.Simo.Steps.{start}
use ik2203_distributed_coord.Exchange.{OmniPaxosServer, outgoing_tick, run_arm}
use ik2203_distributed_coord.Exchange.Runs.{Goes, sent, run_arm-Goes}

abbrev node : OmniPaxos ℕ Unit
node = record {
  seq_paxos = record {
    storage = empty_storage ℕ Unit;
    config_id = 1;
    pid = 1;
    peers = 2 ∷ [];
    role = Role.follower;
    phase = Phase.none;
    leader = default;
    pending_proposals = [];
    pending_stopsign = none;
    outgoing = [];
    leader_state = leader_state_with default none 2 2;
    latest_accepted_meta = none;
  };
  ble = record {
    pid = 1;
    peers = 2 ∷ [];
    hb_round = 4;
    ballots = [];
    current_ballot = ballot_with 0 0 1;
    quorum_connected = true;
    leader = none;
    majority = 2;
    outgoing = requests 1 4 (2 ∷ []);
  };
}

abbrev server : OmniPaxosServer ℕ Unit
server = record { omni_paxos_instance = node; omni_simo = new_simo }

abbrev or_server : Outcome (OmniPaxosServer ℕ Unit) → OmniPaxosServer ℕ Unit
or_server (done s) = s
or_server panic = server

abbrev fetched : OmniPaxosServer ℕ Unit
fetched = or_server (run_arm ⦃snap = no_snapshot⦄ outgoing_tick server)

fetched_runs : run_arm ⦃snap = no_snapshot⦄ outgoing_tick server ≡ done fetched
unfolding run_arm
fetched_runs = refl

run_arm-Goes_example :
    Goes ⦃snap = no_snapshot⦄ outgoing_tick server fetched []
      (sent ⦃snap = no_snapshot⦄ outgoing_tick server)
      []
run_arm-Goes_example =
    run_arm-Goes ⦃snap = no_snapshot⦄ outgoing_tick server fetched [] [] fetched_runs start
