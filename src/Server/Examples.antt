-- ===== src/Server/Examples.antt =====
-- A server with a few applied entries: the theorems of Server at concrete states.
use Prim.Native.String.{String}
use ik2203_distributed_coord.Prelude.{
  ◌≡◌, refl, arith, true, none, some, List, [], ◌∷◌, ◌++◌, map, control, All, all_nil, all_cons,
  Outcome, done, panic, Returns,
}
use ik2203_distributed_coord.Ballot.{ballot_with, default}
use ik2203_distributed_coord.Storage.Memory.{empty_storage}
use ik2203_distributed_coord.Storage.Read.{LogEntry as OmniLogEntry, decided}
use ik2203_distributed_coord.LeaderState.{leader_state_with}
use ik2203_distributed_coord.Paxos.{Paxos, Role, Phase}
use ik2203_distributed_coord.Ble.{BallotLeaderElection}
use ik2203_distributed_coord.Server.Table
use ik2203_distributed_coord.Server.Wal.{
  LogEntry, set_value, lin_read, lin_write, compact, snapshot, find_log_by_opid,
}
use ik2203_distributed_coord.Server.Wal.Compaction.{newest, snapshot-newest}
use ik2203_distributed_coord.Server.{
  Ddbb, get, apply_all, retrieve_logs_from_omni, poll_write, poll_read,
}
use ik2203_distributed_coord.Server.Replay.{Agrees, last_write, apply_all-Agrees}
use ik2203_distributed_coord.Server.Retrieve.{retrieve-applies}
use ik2203_distributed_coord.Server.Answers.{
  ends_search, is_other, apply_all-answers, find_log_by_opid-ends,
}

abbrev replica : Paxos LogEntry Unit
replica = record {
  storage = record (empty_storage LogEntry Unit) {
    log = set_value "a" (1 ∷ []) ∷ lin_write ("n1", 1) "a" (2 ∷ []) ∷ compact ∷ [];
    ld = 2;
  };
  config_id = 1;
  pid = 1;
  peers = 2 ∷ 3 ∷ [];
  role = Role.follower;
  phase = Phase.accept;
  leader = ballot_with 1 0 2;
  pending_proposals = [];
  pending_stopsign = none;
  outgoing = [];
  leader_state = leader_state_with default none 3 2;
  latest_accepted_meta = none;
}

abbrev elections : BallotLeaderElection
elections = record {
  pid = 1;
  peers = 2 ∷ 3 ∷ [];
  hb_round = 4;
  ballots = [];
  current_ballot = ballot_with 0 0 1;
  quorum_connected = true;
  leader = none;
  majority = 2;
  outgoing = [];
}

abbrev server : Ddbb
server = record {
  addr = "n1";
  wal_store = record { idx = 0; store = [] };
  kv_store = [];
  omni = record { seq_paxos = replica; ble = elections };
  timestamp = 1;
}

retrieve-applies_example :
    Returns
      (λ d'.
        (d'.wal_store.idx ≡ 2)
        × ((k : String)
            → get d' k
              ≡ last_write
                  (map decided (set_value "a" (1 ∷ []) ∷ lin_write ("n1", 1) "a" (2 ∷ []) ∷ []))
                  k
                  (get server k)))
      (retrieve_logs_from_omni server)
unfolding control
retrieve-applies_example = retrieve-applies server (omega arith) (omega arith)

-- a write, two compactions around another one, and a read
abbrev applied : List LogEntry
applied =
    compact
    ∷ set_value "a" (3 ∷ [])
    ∷ set_value "a" (2 ∷ [])
    ∷ compact
    ∷ lin_read ("n1", 1) "a" none
    ∷ set_value "b" (1 ∷ [])
    ∷ []

snapshot-newest_example : newest (snapshot applied) "b" ≡ newest applied "b"
snapshot-newest_example = snapshot-newest applied "b"

abbrev entries : List (OmniLogEntry LogEntry Unit)
entries = map decided (set_value "a" (1 ∷ []) ∷ compact ∷ [])

abbrev or_server : Outcome Ddbb → Ddbb
or_server (done d) = d
or_server panic = server

abbrev server_after : Ddbb
server_after = or_server (apply_all server entries)

runs : apply_all server entries ≡ done server_after
unfolding apply_all control
runs = refl

server-Agrees : Agrees server
unfolding Agrees get newest Table.get
server-Agrees k = refl

apply_all-Agrees_example : Agrees server_after
apply_all-Agrees_example = apply_all-Agrees server entries server_after server-Agrees runs

-- the read of another server
abbrev behind : List LogEntry
behind = lin_read ("n2", 2) "a" none ∷ []

behind-are_other : All (λ log. is_other "n1" 2 log ≡ true) behind
unfolding is_other control
behind-are_other = all_cons refl all_nil

apply_all-answers_example :
    Returns
      (λ d'.
        (poll_write d' 2 ≡ true)
        × (get d' "a" ≡ last_write (map decided behind) "a" (some (5 ∷ []))))
      (apply_all server (map decided (lin_write ("n1", 2) "a" (5 ∷ []) ∷ behind)))
    × Returns
        (λ d'. poll_read d' 2 ≡ some (get server "a"))
        (apply_all server (map decided (lin_read ("n1", 2) "a" none ∷ behind)))
apply_all-answers_example =
    apply_all-answers server 2 "a" (5 ∷ []) none behind behind-are_other (omega arith)

find_log_by_opid-ends_example :
    find_log_by_opid ([] ++ set_value "b" [] ∷ lin_write ("n1", 2) "a" (5 ∷ []) ∷ []) "n1" 2
    ≡ find_log_by_opid [] "n1" 2
unfolding ends_search
find_log_by_opid-ends_example =
    find_log_by_opid-ends [] (lin_write ("n1", 2) "a" (5 ∷ []) ∷ []) (set_value "b" []) "n1" 2 refl
