-- ===== src/Ble/Election.antt =====
-- What `hb_timeout` elects.
use ik2203_distributed_coord.Prelude.{
  ◌+◌, ◌<◌, ◌≡◌, refl, sym, Bool, true, false, ◌⊎◌, inl, inr, Option, none, some, List, [], ◌∷◌,
  ◌++◌, length, arith, control, Bool-cases, done, if◌then◌else◌, ◌∙◌, ◌≢◌, Outcome-cases, Returns,
  Returns-bind, Returns-done, ◌^◌, >>=-eq-done, ap, ◌≤◌, false≢true,
}
use ik2203_distributed_coord.Ballot.{Ballot, default, lt_ballot, le_ballot}
use ik2203_distributed_coord.Ballot.Order.{
  Le, Lt, Le-refl, Le-trans, Le_of_Lt, lt-eq-not_le, Lt_of_Le_of_Lt, eq_ballot_iff,
}
use ik2203_distributed_coord.Ble.{
  BallotLeaderElection, max_candidate, leader_or_default, is_new, check_leader, timeout_result,
  hb_timeout, new_hb_round, requests,
}

-- `b` is the ballot of a candidate in the list.
abbrev pub Candidate : Ballot → List (Ballot × Bool) → Type 0
Candidate b [] = ⊥
Candidate b ((c, candidate) ∷ rest) = ((c ≡ b) × (candidate ≡ true)) ⊎ Candidate b rest

le_of_not_lt : (a b : Ballot) → lt_ballot a b ≡ false → Le b a
le_of_not_lt a b h = ground (arith, lt-eq-not_le a b)

abbrev larger : Ballot → Ballot → Ballot
larger m c = if lt_ballot m c then c else m

le-larger_left : (m c : Ballot) → Le m (larger m c)
unfolding control
le-larger_left m c = elim (Bool-cases (lt_ballot m c)) [
  | inl e ↦ rw e (Le_of_Lt m c e)
  | inr e ↦ rw e (Le-refl m)
]

le-larger_right : (m c : Ballot) → Le c (larger m c)
unfolding control
le-larger_right m c = elim (Bool-cases (lt_ballot m c)) [
  | inl e ↦ rw e (Le-refl c)
  | inr e ↦ rw e (le_of_not_lt m c e)
]

le-max_candidate : (m : Ballot) (xs : List (Ballot × Bool)) → Le m (max_candidate m xs)
unfolding max_candidate control
le-max_candidate m [] = Le-refl m
le-max_candidate m ((c, true) ∷ xs) =
    Le-trans _ _ _ (le-larger_left m c) (le-max_candidate (larger m c) xs)
le-max_candidate m ((c, false) ∷ xs) = le-max_candidate m xs

Candidate-le-max :
    (m b : Ballot) (xs : List (Ballot × Bool)) → Candidate b xs → Le b (max_candidate m xs)
unfolding max_candidate control
Candidate-le-max m b [] h = absurd h
Candidate-le-max m b ((c, true) ∷ xs) (inl h) =
    rw (← h.0) (Le-trans _ _ _ (le-larger_right m c) (le-max_candidate (larger m c) xs))
Candidate-le-max m b ((c, true) ∷ xs) (inr h) = Candidate-le-max (larger m c) b xs h
Candidate-le-max m b ((c, false) ∷ xs) (inl h) = absurd (false≢true h.1)
Candidate-le-max m b ((c, false) ∷ xs) (inr h) = Candidate-le-max m b xs h

max_candidate-Candidate :
    (m : Ballot) (xs : List (Ballot × Bool))
    → (max_candidate m xs ≡ m) ⊎ Candidate (max_candidate m xs) xs
unfolding max_candidate control
max_candidate-Candidate m [] = inl refl
max_candidate-Candidate m ((c, false) ∷ xs) = elim (max_candidate-Candidate m xs) [
  | inl e ↦ inl e
  | inr h ↦ inr (inr h)
]
max_candidate-Candidate m ((c, true) ∷ xs) = elim (max_candidate-Candidate (larger m c) xs) [
  | inr h ↦ inr (inr h)
  | inl e ↦ elim (Bool-cases (lt_ballot m c)) [
    | inl lt ↦ inr (inl (sym (e ∙ (rw lt refl)), refl))
    | inr ge ↦ inl (e ∙ (rw ge refl))
  ]
]

-- the ballots that a timeout looks at: those received, and the own one
abbrev pub heard : BallotLeaderElection → List (Ballot × Bool)
heard b = b.ballots ++ (b.current_ballot, b.quorum_connected) ∷ []

-- What a new leader is: ballots of a majority were heard, no candidate's is greater, it is the
-- default or a candidate's, and it is greater than the leader before.
pub record IsElected (b : BallotLeaderElection) (l : Ballot) : Type 0 where
  pub quorum : b.majority ≤ length b.ballots + 1
  pub maximal : (c : Ballot) → Candidate c (heard b) → Le c l
  pub member : (l ≡ default) ⊎ Candidate l (heard b)
  pub above : (old : Ballot) → b.leader ≡ some old → Lt old l

is_new-ne : (o : Option Ballot) (l old : Ballot) → is_new o l ≡ true → o ≡ some old → old ≢ l
unfolding control
is_new-ne o l old h e q = ground (arith, eq_ballot_iff old l)

lt_of_le_of_ne : (a b : Ballot) → Le a b → a ≢ b → Lt a b
unfolding lt_ballot le_ballot
lt_of_le_of_ne a b h k = ground arith

check_leader-elects :
    (b b' : BallotLeaderElection) (l : Ballot)
    → check_leader b ≡ done (b', some l)
    → (max_candidate default b.ballots ≡ l)
      × (b'.leader ≡ some l)
      × (is_new b.leader l ≡ true)
      × (lt_ballot l (leader_or_default b.leader) ≡ false)
unfolding check_leader control
check_leader-elects b b' l h = ground arith

timeout_result-elects :
    (b b' : BallotLeaderElection) (l : Ballot)
    → timeout_result b ≡ done (b', some l)
    → (b.majority ≤ length b.ballots + 1)
      × (max_candidate default (heard b) ≡ l)
      × (b'.leader ≡ some l)
      × (is_new b.leader l ≡ true)
      × (lt_ballot l (leader_or_default b.leader) ≡ false)
unfolding timeout_result control
timeout_result-elects b b' l h =
    ground (arith, check_leader-elects (record b { ballots = heard b }) b' l)

max_candidate-IsElected :
    (b : BallotLeaderElection) (l : Ballot)
    → b.majority ≤ length b.ballots + 1
    → max_candidate default (heard b) ≡ l
    → is_new b.leader l ≡ true
    → lt_ballot l (leader_or_default b.leader) ≡ false
    → IsElected b l
max_candidate-IsElected b l q top new ge = record {
  quorum = q;
  maximal = λ c h. rw (← top) (Candidate-le-max default c (heard b) h);
  member = rw (← top) (max_candidate-Candidate default (heard b));
  above = λ old e.
      lt_of_le_of_ne old l (le_of_not_lt l old (rw (← ap leader_or_default e) ge))
        (is_new-ne b.leader l old new e);
}

-- A new round keeps all but the round and the messages.
record NextRound (b t : BallotLeaderElection) : Type 0 where
  leader : t.leader ≡ b.leader
  current_ballot : t.current_ballot ≡ b.current_ballot
  ballots : t.ballots ≡ b.ballots
  hb_round : t.hb_round ≡ b.hb_round + 1
  outgoing : t.outgoing ≡ b.outgoing ++ requests b.pid (b.hb_round + 1) b.peers

new_hb_round-NextRound : (b t : BallotLeaderElection) → new_hb_round b ≡ done t → NextRound b t
unfolding new_hb_round control
new_hb_round-NextRound b t h = ground arith

new_hb_round-runs :
    (b : BallotLeaderElection) → b.hb_round + 1 < 2 ^ 32 → Returns (NextRound b) (new_hb_round b)
unfolding new_hb_round control
new_hb_round-runs b h = elim (Outcome-cases (new_hb_round b)) [
  | inl e ↦ absurd (ground arith)
  | inr (t, e) ↦ record { value = t; runs = e; meets = new_hb_round-NextRound b t e }
]

-- When `hb_timeout` returns a new leader, ballots of a majority were heard, no candidate's ballot is
-- greater than the leader's, the leader's is the default or a candidate's ballot and greater than that
-- of the leader before, and it is recorded as the leader.
pub hb_timeout-IsElected :
    (b b' : BallotLeaderElection) (l : Ballot)
    → hb_timeout b ≡ done (b', some l)
    → IsElected b l × (b'.leader ≡ some l)
unfolding hb_timeout
hb_timeout-IsElected b b' l h =
    let (r, e, k) = >>=-eq-done (timeout_result b) _ h in
    let (b2, e2, k2) = >>=-eq-done (new_hb_round r.0) _ k in
    let p : r.1 ≡ some l = ground arith in
    let (q, top, led, new, ge) = timeout_result-elects b r.0 l (e ∙ ap (λ o. done (r.0, o)) p) in
    (
      max_candidate-IsElected b l q top new ge,
      cc (led, (new_hb_round-NextRound r.0 b2 e2).leader, k2),
    )

timeout_result-runs :
    (b : BallotLeaderElection)
    → (leader_or_default b.leader).n + 1 < 2 ^ 32
    → Returns
        (λ r.
          (r.0.hb_round ≡ b.hb_round)
          × (r.0.ballots ≡ [])
          × (r.0.outgoing ≡ b.outgoing)
          × (r.0.pid ≡ b.pid)
          × (r.0.peers ≡ b.peers))
        (timeout_result b)
unfolding timeout_result check_leader control
timeout_result-runs b h = elim (Outcome-cases (timeout_result b)) [
  | inl e ↦ absurd (ground arith)
  | inr (r, e) ↦ record { value = r; runs = e; meets = ground arith }
]

-- Short of an overflow of the round or of the lost leader's ballot number, `hb_timeout` returns: the
-- ballots of the old round are gone, and one request of the next round goes to each peer.
pub hb_timeout-runs :
    (b : BallotLeaderElection)
    → b.hb_round + 1 < 2 ^ 32
    → (leader_or_default b.leader).n + 1 < 2 ^ 32
    → Returns
        (λ r.
          (r.0.hb_round ≡ b.hb_round + 1)
          × (r.0.ballots ≡ [])
          × (r.0.outgoing ≡ b.outgoing ++ requests b.pid (b.hb_round + 1) b.peers))
        (hb_timeout b)
unfolding hb_timeout
hb_timeout-runs b h k = Returns-bind (timeout_result-runs b k) λ r m.
    Returns-bind (new_hb_round-runs r.0 (rw m.0 h)) λ t n.
      Returns-done (cc (n.hb_round, m.0), cc (n.ballots, m.1), cc (n.outgoing, m.0, m.2, m.3, m.4))

timeout_result-lost :
    (b b' : BallotLeaderElection) (o : Option Ballot) (old : Ballot)
    → timeout_result b ≡ done (b', o)
    → b.leader ≡ some old
    → b'.leader ≡ none
    → (o ≡ none) × Lt old b'.current_ballot × Lt (max_candidate default (heard b)) old
unfolding timeout_result check_leader lt_ballot control
timeout_result-lost b b' o old h l n = ground arith

-- When `hb_timeout` drops the leader, it elects none, the own ballot is then above the lost leader's,
-- and every candidate's ballot was below it.
hb_timeout-lost :
    (b b' : BallotLeaderElection) (o : Option Ballot) (old : Ballot)
    → hb_timeout b ≡ done (b', o)
    → b.leader ≡ some old
    → b'.leader ≡ none
    → (o ≡ none) × Lt old b'.current_ballot × ((c : Ballot) → Candidate c (heard b) → Lt c old)
unfolding hb_timeout
hb_timeout-lost b b' o old h l n =
    let (r, e, k) = >>=-eq-done (timeout_result b) _ h in
    let (b2, e2, k2) = >>=-eq-done (new_hb_round r.0) _ k in
    let next = new_hb_round-NextRound r.0 b2 e2 in
    let (x, y, z) = timeout_result-lost b r.0 r.1 old e l (cc (n, next.leader, k2)) in
    let kept : b'.current_ballot ≡ r.0.current_ballot = cc (next.current_ballot, k2) in
    (
      cc (x, k2),
      rw kept y,
      λ c m. Lt_of_Le_of_Lt c _ old (Candidate-le-max default c (heard b) m) z,
    )
