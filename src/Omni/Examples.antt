-- ===== src/Omni/Examples.antt =====
-- An election timeout of a node of three that hears of a greater ballot.
use ik2203_distributed_coord.Prelude.{ℕ, true, none, [], ◌∷◌, Outcome, done, panic}
use ik2203_distributed_coord.Ballot.{ballot_with, default}
use ik2203_distributed_coord.Storage.Memory.{empty_storage}
use ik2203_distributed_coord.LeaderState.{leader_state_with}
use ik2203_distributed_coord.Paxos.{Role, Phase}
use ik2203_distributed_coord.Omni.{OmniPaxos, election_timeout}

abbrev node : OmniPaxos ℕ Unit
node = record {
  seq_paxos = record {
    storage = empty_storage ℕ Unit;
    config_id = 1;
    pid = 1;
    peers = 2 ∷ 3 ∷ [];
    role = Role.follower;
    phase = Phase.none;
    leader = default;
    pending_proposals = [];
    pending_stopsign = none;
    outgoing = [];
    leader_state = leader_state_with default none 3 2;
    latest_accepted_meta = none;
  };
  ble = record {
    pid = 1;
    peers = 2 ∷ 3 ∷ [];
    hb_round = 4;
    ballots = (ballot_with 1 0 2, true) ∷ [];
    current_ballot = ballot_with 0 0 1;
    quorum_connected = true;
    leader = none;
    majority = 2;
    outgoing = [];
  };
}

abbrev or_node : Outcome (OmniPaxos ℕ Unit) → OmniPaxos ℕ Unit
or_node (done o) = o
or_node panic = node

abbrev timed_out : OmniPaxos ℕ Unit
timed_out = or_node (election_timeout node)
