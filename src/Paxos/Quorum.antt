-- ===== src/Paxos/Quorum.antt =====
-- omnipaxos_core/src/sequence_paxos/leader.rs, `handle_accepted`, and `is_chosen` of
-- omnipaxos_core/src/util.rs: what a leader decides, and that quorums meet.
use ik2203_distributed_coord.Prelude.{
  ℕ, suc, ◌+◌, ◌≡◌, ◌<◌, ◌≤◌, refl, ap, ◌∙◌, Bool, true, ◌&&◌, ◌⊎◌, inl, inr, Option, none, some,
  List, [], ◌∷◌, arith, control, if◌then◌else◌, length, get_elem?, leb, ltb, leb→le, ltb→lt,
  Bool-cases, &&-eq-true, done, Ensures, Ensures-done, Ensures-if, Ensures-bind, Ensures-bind_any,
  Ensures-weaken, >>=-eq-done, set_index,
}
use ik2203_distributed_coord.Ballot.{Ballot, eq_ballot}
use ik2203_distributed_coord.Messages.{Accepted, Decide, PaxosMessage, PaxosMsg, accept_decide}
use ik2203_distributed_coord.LeaderState.{
  LeaderState, count_if, is_chosen, set_accepted_idx, pid_to_idx,
}
use ik2203_distributed_coord.Paxos.{Paxos, send, is_leader, is_accept}
use ik2203_distributed_coord.Paxos.Follower.{handle_decide}
use ik2203_distributed_coord.Paxos.Leader.{decide_cached, decide_at, decide_all, handle_accepted}

-- An index at which both tests hold.
pub record Meets {A : Type 0} (p q : A → Bool) (xs ys : List A) : Type 0 where
  pub at : ℕ
  pub left : A
  pub right : A
  pub in_left : get_elem? xs at ≡ some left
  pub in_right : get_elem? ys at ≡ some right
  pub holds_left : p left ≡ true
  pub holds_right : q right ≡ true

Meets-later :
    {A : Type 0} {p q : A → Bool} {x y : A} {xs ys : List A}
    → Meets p q xs ys
    → Meets p q (x ∷ xs) (y ∷ ys)
Meets-later h = record {
  at = suc h.at;
  left = h.left;
  right = h.right;
  in_left = h.in_left;
  in_right = h.in_right;
  holds_left = h.holds_left;
  holds_right = h.holds_right;
}

count_if-le : {A : Type 0} (p : A → Bool) (xs : List A) → count_if p xs ≤ length xs
unfolding control
count_if-le p [] = omega arith
count_if-le p (x ∷ xs) = ground (arith, count_if-le p xs)

pub quorums-meet :
    {A : Type 0} (p q : A → Bool) (xs ys : List A)
    → length xs ≡ length ys
    → length xs < count_if p xs + count_if q ys
    → Meets p q xs ys
unfolding control
quorums-meet p q [] [] e h = absurd (omega arith)
quorums-meet p q [] (y ∷ ys) e h = absurd (omega arith)
quorums-meet p q (x ∷ xs) [] e h = absurd (omega arith)
quorums-meet p q (x ∷ xs) (y ∷ ys) e h = elim (Bool-cases (p x && q y)) [
  | inl b ↦
      let (l, r) = &&-eq-true (p x) (q y) b in
      record {
        at = 0;
        left = x;
        right = y;
        in_left = refl;
        in_right = refl;
        holds_left = l;
        holds_right = r;
      }
  | inr b ↦ Meets-later (quorums-meet p q xs ys (omega arith) (ground arith))
]

module _ {T S : Type 0} where
  -- When two leaders that count the same number of replicas, fewer than their two majorities together,
  -- hold `a` and `b` for chosen, some replica is known to the first to have accepted up to `a` and to
  -- the second to have accepted up to `b`.
  is_chosen-meet :
      (l r : LeaderState T S) (a b : ℕ)
      → length l.accepted_indexes ≡ length r.accepted_indexes
      → length l.accepted_indexes < l.majority + r.majority
      → is_chosen l a ≡ true
      → is_chosen r b ≡ true
      → (i x y : ℕ) × (get_elem? l.accepted_indexes i ≡ some x)
        × (get_elem? r.accepted_indexes i ≡ some y)
        × (a ≤ x)
        × (b ≤ y)
  unfolding is_chosen
  is_chosen-meet l r a b e m h k =
      let n = leb→le l.majority (count_if (λ la. leb a la) l.accepted_indexes) h in
      let n' = leb→le r.majority (count_if (λ la. leb b la) r.accepted_indexes) k in
      let t =
        quorums-meet (λ la. leb a la) (λ la. leb b la) l.accepted_indexes r.accepted_indexes e
          (omega arith) in
      (
        t.at,
        t.left,
        t.right,
        t.in_left,
        t.in_right,
        leb→le a t.left t.holds_left,
        leb→le b t.right t.holds_right,
      )

  -- Telling the followers changes only the messages.
  record Told (s t : Paxos T S) : Type 0 where
    leader_state : t.leader_state ≡ s.leader_state
    storage : t.storage ≡ s.storage
    phase : t.phase ≡ s.phase

  Told-refl : (s : Paxos T S) → Told s s
  Told-refl s = record { leader_state = refl; storage = refl; phase = refl }

  Told-send : (s : Paxos T S) (to : ℕ) (m : PaxosMsg T S) → Told s (send s to m)
  unfolding send
  Told-send s to m = record { leader_state = refl; storage = refl; phase = refl }

  decide_cached-Told :
      (s : Paxos T S) (to : ℕ) (d : Decide) (i : ℕ) (m : PaxosMessage T S) (x : PaxosMsg T S)
      → Told s (decide_cached s to d i m x)
  unfolding decide_cached
  decide_cached-Told s to d i m (accept_decide a) = record {
    leader_state = refl;
    storage = refl;
    phase = refl;
  }
  decide_cached-Told s to d i m _ = Told-send s to _

  decide_at-Told :
      (s : Paxos T S) (to : ℕ) (d : Decide) (o : Option (Ballot × ℕ))
      → Ensures (Told s) (decide_at s to d o)
  unfolding decide_at
  decide_at-Told s to d none = Ensures-done (Told-send s to _)
  decide_at-Told s to d (some (n, i)) =
      Ensures-if _
        (λ e. Ensures-bind_any _ λ m e'. Ensures-done (decide_cached-Told s to d i m m.msg))
        (λ e. Ensures-done (Told-send s to _))

  decide_all-Told :
      (s : Paxos T S) (d : Decide) (pids : List ℕ) → Ensures (Told s) (decide_all s d pids)
  unfolding decide_all
  decide_all-Told s d [] = Ensures-done (Told-refl s)
  decide_all-Told s d (to ∷ rest) = Ensures-bind_any _ λ meta e.
      Ensures-bind (decide_at-Told s to d meta) λ t h.
        Ensures-weaken (decide_all-Told t d rest) λ u k. record {
          leader_state = k.leader_state ∙ h.leader_state;
          storage = k.storage ∙ h.storage;
          phase = k.phase ∙ h.phase;
        }

  -- What an Accepted message does to the chosen index: a new one is the accepted index of the
  -- message, greater than the old one, and accepted by a majority, and the decided index follows it
  -- when the leader still promises its own round.
  pub record IsDecision (s : Paxos T S) (acc : Accepted) (t : Paxos T S) : Type 0 where
    pub leading :
        eq_ballot acc.n s.leader_state.n_leader && (is_leader s.role && is_accept s.phase) ≡ true
    pub advances : s.leader_state.chosen_idx < acc.accepted_idx
    pub chosen : t.leader_state.chosen_idx ≡ acc.accepted_idx
    pub majority : is_chosen t.leader_state acc.accepted_idx ≡ true
    pub decided : t.storage.ld ≡ (
        if eq_ballot s.storage.n_prom s.leader_state.n_leader
        then acc.accepted_idx
        else s.storage.ld)

  set_accepted_idx-keeps :
      (ls ls' : LeaderState T S) (pid idx : ℕ)
      → set_accepted_idx ls pid idx ≡ done ls'
      → (ls'.chosen_idx ≡ ls.chosen_idx)
        × (ls'.n_leader ≡ ls.n_leader)
        × (ls'.majority ≡ ls.majority)
  unfolding set_accepted_idx control
  set_accepted_idx-keeps ls ls' pid idx h =
      let (i, e, k) = >>=-eq-done (pid_to_idx pid) _ h in
      let (xs, e', k') = >>=-eq-done (set_index ls.accepted_indexes i idx) _ k in ground arith

  handle_decide-leader_state :
      (s : Paxos T S) (d : Decide) → (handle_decide s d).leader_state ≡ s.leader_state
  unfolding handle_decide control
  handle_decide-leader_state s d =
      elim (Bool-cases (eq_ballot s.storage.n_prom d.n && is_accept s.phase)) [
        | inl e ↦ rw e
        | inr e ↦ rw e
      ]

  handle_decide-ld :
      (s : Paxos T S) (d : Decide)
      → is_accept s.phase ≡ true
      → (handle_decide s d).storage.ld
        ≡ (if eq_ballot s.storage.n_prom d.n then d.decided_idx else s.storage.ld)
  unfolding handle_decide control
  handle_decide-ld s d e = elim (Bool-cases (eq_ballot s.storage.n_prom d.n)) [
    | inl q ↦ rw (q, e)
    | inr q ↦ rw q
  ]

  module _ (s t : Paxos T S) (ls : LeaderState T S) (acc : Accepted) where
    abbrev decision : Decide
    decision = record { n = ls.n_leader; decided_idx = acc.accepted_idx }

    decision-IsDecision :
        (eq_ballot acc.n s.leader_state.n_leader && (is_leader s.role && is_accept s.phase)) ≡ true
        → ls.chosen_idx ≡ s.leader_state.chosen_idx
        → ls.n_leader ≡ s.leader_state.n_leader
        → (ltb ls.chosen_idx acc.accepted_idx && is_chosen ls acc.accepted_idx) ≡ true
        → Told (record s { leader_state = record ls { chosen_idx = acc.accepted_idx } }) t
        → IsDecision s acc (handle_decide t decision)
    decision-IsDecision lead c n q told =
        let (lt, maj) = &&-eq-true _ _ q in
        let (_, rest) =
          &&-eq-true (eq_ballot acc.n s.leader_state.n_leader)
            (is_leader s.role && is_accept s.phase) lead in
        let (_, in_phase) = &&-eq-true (is_leader s.role) (is_accept s.phase) rest in
        let state = handle_decide-leader_state t decision ∙ told.leader_state in
        record {
          leading = lead;
          advances = rw (← c) (ltb→lt _ _ lt);
          chosen = ap (λ (l : LeaderState T S). l.chosen_idx) state;
          majority = rw state (unfold is_chosen in maj);
          decided =
              handle_decide-ld t decision (rw told.phase in_phase) ∙ (rw (told.storage, n) refl);
        }

  -- Whenever `handle_accepted` returns, the chosen index and the decided index are those before, or
  -- the message is of the own round to a leader in its Accept phase, its index is greater than the
  -- chosen one and accepted by a majority, it becomes the chosen index, and the decided index too
  -- when the promised round is the leader's own.
  pub handle_accepted-decides :
      (s : Paxos T S) (acc : Accepted) (from : ℕ)
      → Ensures
          (λ t.
            ((t.leader_state.chosen_idx ≡ s.leader_state.chosen_idx)
              × (t.storage.ld ≡ s.storage.ld))
            ⊎ IsDecision s acc t)
          (handle_accepted s acc from)
  unfolding handle_accepted
  handle_accepted-decides s acc from =
      Ensures-if _
        (λ lead. Ensures-bind_any _ λ ls e.
          let (c, n, m) = set_accepted_idx-keeps s.leader_state ls from acc.accepted_idx e in
          Ensures-if _
            (λ q. Ensures-bind_any _ λ pids e'.
              Ensures-bind (decide_all-Told _ _ pids)
                λ t told. Ensures-done (inr (decision-IsDecision s t ls acc lead c n q told)))
            (λ q. Ensures-done (inl (c, refl))))
        (λ lead. Ensures-done (inl (refl, refl)))
