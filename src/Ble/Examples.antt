-- ===== src/Ble/Examples.antt =====
-- Timeouts of a node of three: the theorems of Ble at concrete states.
use ik2203_distributed_coord.Prelude.{
  ◌≡◌, refl, arith, Bool, true, Option, none, some, List, [], ◌∷◌, ◌++◌, control, Outcome, done,
  panic, Returns,
}
use ik2203_distributed_coord.Ballot.{Ballot, ballot_with, eq_ballot, lt_ballot}
use ik2203_distributed_coord.Ble.{
  BallotLeaderElection, hb_timeout, timeout_result, check_leader, max_candidate, new_hb_round,
  requests,
}
use ik2203_distributed_coord.Ble.Election.{IsElected, hb_timeout-IsElected, hb_timeout-runs}

abbrev node : List (Ballot × Bool) → Option Ballot → BallotLeaderElection
node ballots leader = record {
  pid = 1;
  peers = 2 ∷ 3 ∷ [];
  hb_round = 4;
  ballots = ballots;
  current_ballot = ballot_with 0 0 1;
  quorum_connected = true;
  leader = leader;
  majority = 2;
  outgoing = [];
}

abbrev ballot_2 : Ballot
ballot_2 = ballot_with 1 0 2

abbrev voting : BallotLeaderElection
voting = node ((ballot_2, true) ∷ []) none

-- The leader was the third node, of which nothing is heard.
abbrev losing : BallotLeaderElection
losing = node ((ballot_2, true) ∷ []) (some (ballot_with 6 0 3))

abbrev state_after : Outcome (BallotLeaderElection × Option Ballot) → BallotLeaderElection
state_after (done r) = r.0
state_after panic = voting

unfoldable runs : Unit {0}
unfolding hb_timeout timeout_result check_leader max_candidate new_hb_round requests eq_ballot
    lt_ballot control
runs = tt

elects_2 : hb_timeout voting ≡ done (state_after (hb_timeout voting), some ballot_2)
unfolding runs
elects_2 = refl

hb_timeout-IsElected_example :
    IsElected voting ballot_2 × ((state_after (hb_timeout voting)).leader ≡ some ballot_2)
hb_timeout-IsElected_example =
    hb_timeout-IsElected voting (state_after (hb_timeout voting)) ballot_2 elects_2

hb_timeout-runs_example :
    Returns
      (λ r.
        (r.0.hb_round ≡ 5) × (r.0.ballots ≡ []) × (r.0.outgoing ≡ [] ++ requests 1 5 (2 ∷ 3 ∷ [])))
      (hb_timeout losing)
hb_timeout-runs_example = hb_timeout-runs losing (omega arith) (omega arith)
