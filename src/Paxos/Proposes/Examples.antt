-- ===== src/Paxos/Proposes/Examples.antt =====
-- A leader of three that has a message to the second replica cached, and none to the third.
use ik2203_distributed_coord.Prelude.{
  ℕ, zero, suc, ◌≡◌, refl, none, some, [], ◌∷◌, All, all_nil, all_cons, arith, control, Returns,
  get_elem?,
}
use ik2203_distributed_coord.Ballot.{Ballot, ballot_with}
use ik2203_distributed_coord.Ballot.Order.{Le-refl}
use ik2203_distributed_coord.Storage.{ok}
use ik2203_distributed_coord.Storage.Memory.{empty_storage}
use ik2203_distributed_coord.Messages.{AcceptDecide, accept_decide}
use ik2203_distributed_coord.LeaderState.{
  leader_state_with, get_promised_followers, promised_from, pid_to_idx,
}
use ik2203_distributed_coord.Paxos.{Paxos, Role, Phase, stopped}
use ik2203_distributed_coord.Paxos.Handle.{append}
use ik2203_distributed_coord.Paxos.Cached.{Points}
use ik2203_distributed_coord.Paxos.Rounds.{IsSound}
use ik2203_distributed_coord.Paxos.Gives.{Gives}
use ik2203_distributed_coord.Paxos.Proposes.{append-proposes}

abbrev round_5 : Ballot
round_5 = ballot_with 5 0 1

abbrev earlier : AcceptDecide ℕ
earlier = record { n = round_5; decided_idx = 0; entries = 4 ∷ [] }

abbrev proposing : Paxos ℕ Unit
proposing = record {
  storage = record (empty_storage ℕ Unit) { log = 4 ∷ []; n_prom = round_5; acc_round = round_5 };
  config_id = 1;
  pid = 1;
  peers = 2 ∷ 3 ∷ [];
  role = Role.leader;
  phase = Phase.accept;
  leader = round_5;
  pending_proposals = [];
  pending_stopsign = none;
  outgoing = record { from = 1; to = 2; msg = accept_decide earlier } ∷ [];
  leader_state = record (leader_state_with round_5 (some (some 0 ∷ some 0 ∷ some 0 ∷ [])) 3 2) {
    batch_accept_meta = none ∷ some (round_5, 0) ∷ none ∷ [];
  };
  latest_accepted_meta = none;
}

points :
    (j : ℕ) (n : Ballot) (i : ℕ)
    → get_elem? proposing.leader_state.batch_accept_meta j ≡ some (some (n, i))
    → Points proposing.outgoing (suc j) n i
points zero n i h = absurd (cc h)
points (suc zero) n i h =
    let e : round_5 ≡ n = ground (arith, h) in
    let k : 0 ≡ i = ground (arith, h) in
    rw (← e, ← k)
      (record {
        message = record { from = 1; to = 2; msg = accept_decide earlier };
        found = refl;
        decides = record { to_eq = refl; acc = earlier; msg_eq = refl; n_eq = refl };
      })
points (suc (suc zero)) n i h = absurd (cc h)
points (suc (suc (suc j))) n i h = absurd (cc h)

proposing-IsSound : IsSound proposing
unfolding leader_state_with
proposing-IsSound = record {
  accepted_le = Le-refl round_5;
  leads = λ e. refl;
  own = λ e. refl;
  cache = λ n i e. absurd (cc e);
  honest = all_cons (record { from = refl; claim = tt }) all_nil;
  batches = record { at = points };
}

append-proposes_example :
    Returns
      (λ r.
        (r.1 ≡ ok tt)
        × (r.0.storage.log ≡ 4 ∷ 9 ∷ [])
        × All (Gives (9 ∷ []) round_5 r.0.outgoing) (2 ∷ 3 ∷ []))
      (append proposing 9)
unfolding leader_state_with get_promised_followers promised_from pid_to_idx control stopped
append-proposes_example =
    append-proposes proposing 9 (2 ∷ 3 ∷ []) proposing-IsSound refl refl refl refl
      (record { first = omega arith; last = omega arith })
      (all_cons (record { first = omega arith; last = omega arith })
        (all_cons (record { first = omega arith; last = omega arith }) all_nil))
      (omega arith)
