-- ===== src/Ble.antt =====
-- omnipaxos_core/src/ballot_leader_election.rs: `BallotLeaderElection`, which elects by heartbeats.
-- The round and the ballot number are u32 and their increments checked.
pub mod Election
pub mod Examples
use ik2203_distributed_coord.Prelude.{
  ℕ, ◌+◌, ◌/◌, Bool, true, false, Option, none, some, List, [], ◌∷◌, ◌++◌, length, leb, ◌==◌,
  if◌then◌else◌, Outcome, done, ◌>>=◌, add_u32,
}
use ik2203_distributed_coord.Ballot.{Ballot, default, ballot_with, eq_ballot, lt_ballot}
use ik2203_distributed_coord.Messages.{
  HeartbeatRequest, HeartbeatReply, HeartbeatMsg, request, reply, BleMessage,
}

pub record BallotLeaderElection : Type 0 where
  pub pid : ℕ
  pub peers : List ℕ
  pub hb_round : ℕ  -- u32
  pub ballots : List (Ballot × Bool)
  pub current_ballot : Ballot
  pub quorum_connected : Bool
  pub leader : Option Ballot
  pub majority : ℕ
  pub outgoing : List BleMessage

-- `BLEConfig`, less the buffer size and the logger
pub record BleConfig : Type 0 where
  pub pid : ℕ
  pub peers : List ℕ
  pub priority : ℕ
  pub initial_leader : Option Ballot

-- one heartbeat request to each peer
unfoldable pub requests : ℕ → ℕ → List ℕ → List BleMessage
requests pid round [] = []
requests pid round (peer ∷ peers) =
    record { from = pid; to = peer; msg = request (record { round = round }) }
    ∷ requests pid round peers

unfoldable pub new_hb_round : BallotLeaderElection → Outcome BallotLeaderElection
new_hb_round b = do
  round ← add_u32 b.hb_round 1
  done (record b { hb_round = round; outgoing = b.outgoing ++ requests b.pid round b.peers })

unfoldable pub own_initial : BleConfig → Option Ballot → Ballot
own_initial c none = ballot_with 0 c.priority c.pid
own_initial c (some l) = if l.pid == c.pid then l else ballot_with 0 c.priority c.pid

-- `BallotLeaderElection::with`
unfoldable pub ble_with : BleConfig → Outcome BallotLeaderElection
unfolding own_initial
ble_with c = new_hb_round (record {
  pid = c.pid;
  peers = c.peers;
  hb_round = 0;
  ballots = [];
  current_ballot = own_initial c c.initial_leader;
  quorum_connected = true;
  leader = c.initial_leader;
  majority = (length c.peers + 1) / 2 + 1;
  outgoing = [];
})

unfoldable pub set_priority : BallotLeaderElection → ℕ → BallotLeaderElection
set_priority b p = record b { current_ballot = record (b.current_ballot) { priority = p } }

unfoldable pub get_outgoing_msgs : BallotLeaderElection → BallotLeaderElection × List BleMessage
get_outgoing_msgs b = (record b { outgoing = [] }, b.outgoing)

-- the greatest ballot of a candidate, or the default: `filter_map`, `max`, `unwrap_or_default`
unfoldable pub max_candidate : Ballot → List (Ballot × Bool) → Ballot
max_candidate m [] = m
max_candidate m ((b, candidate) ∷ rest) =
    max_candidate (if candidate then (if lt_ballot m b then b else m) else m) rest

abbrev pub leader_or_default : Option Ballot → Ballot
leader_or_default none = default
leader_or_default (some l) = l

-- `self.leader != Some(b)`
abbrev pub is_new : Option Ballot → Ballot → Bool
is_new none b = true
is_new (some l) b = if eq_ballot l b then false else true

unfoldable pub check_leader : BallotLeaderElection → Outcome (BallotLeaderElection × Option Ballot)
check_leader b =
    let top_ballot = max_candidate default b.ballots in
    let b' = record b { quorum_connected = true; ballots = [] } in
    if lt_ballot top_ballot (leader_or_default b.leader)
    then (do
      n ← add_u32 ((leader_or_default b.leader).n) 1
      done
          (record b' { current_ballot = record (b.current_ballot) { n = n }; leader = none }, none))
    else if is_new b.leader top_ballot
    then done (record b' { leader = some top_ballot }, some top_ballot)
    else done (b', none)

-- the decision of `hb_timeout`, before the next round starts
unfoldable pub timeout_result :
    BallotLeaderElection → Outcome (BallotLeaderElection × Option Ballot)
timeout_result b =
    if leb b.majority (length b.ballots + 1)
    then check_leader
        (record b { ballots = b.ballots ++ (b.current_ballot, b.quorum_connected) ∷ [] })
    else done (record b { ballots = []; quorum_connected = false }, none)

unfoldable pub hb_timeout : BallotLeaderElection → Outcome (BallotLeaderElection × Option Ballot)
hb_timeout b = do r ← timeout_result b; b' ← new_hb_round r.0; done (b', r.1)

unfoldable pub handle_request : BallotLeaderElection → ℕ → HeartbeatRequest → BallotLeaderElection
handle_request b from req =
    let hb_reply : HeartbeatReply = record {
      round = req.round;
      ballot = b.current_ballot;
      quorum_connected = b.quorum_connected;
    } in
    record b {
      outgoing = b.outgoing ++ record { from = b.pid; to = from; msg = reply hb_reply } ∷ [];
    }

-- A late reply is dropped.
unfoldable pub handle_reply : BallotLeaderElection → HeartbeatReply → BallotLeaderElection
handle_reply b rep =
    if rep.round == b.hb_round
    then record b { ballots = b.ballots ++ (rep.ballot, rep.quorum_connected) ∷ [] }
    else b

unfoldable pub handle_msg : BallotLeaderElection → ℕ → HeartbeatMsg → BallotLeaderElection
handle_msg b from (request req) = handle_request b from req
handle_msg b from (reply rep) = handle_reply b rep

unfoldable pub handle : BallotLeaderElection → BleMessage → BallotLeaderElection
unfolding handle_msg
handle b m = handle_msg b m.from m.msg
