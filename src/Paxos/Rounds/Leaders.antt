-- ===== src/Paxos/Rounds/Leaders.antt =====
-- The leader's handlers advance, and with them every message and every call of a replica's user.
use ik2203_distributed_coord.Prelude.{
  set, Ensures-and, ℕ, ◌≡◌, refl, ◌∙◌, true, none, ||-eq-false, ◌==◌, Ensures, Ensures-done,
  Ensures-bind, Ensures-bind_any, Ensures-if, Ensures-weaken, Outcome, done, if◌then◌else◌, sym,
  inl, inr, ==_iff, false≢true, All-weaken,
}
use ik2203_distributed_coord.Ballot.{Ballot}
use ik2203_distributed_coord.Ballot.Order.{Le, Le-trans, Le-total}
use ik2203_distributed_coord.Storage.{Snapshot}
use ik2203_distributed_coord.Messages.{
  Accepted, AcceptedStopSign, PaxosMsg, prepare_req, prepare, promise, accept_sync, first_accept,
  accept_decide, accepted, decide, proposal_forward, compaction, accept_stopsign, accepted_stopsign,
  decide_stopsign, forward_stopsign,
}
use ik2203_distributed_coord.LeaderState.{LeaderState, leader_state_with}
use ik2203_distributed_coord.Paxos.Cached.{IsCached-replicate, IsCached-cleared}
use ik2203_distributed_coord.LeaderState.Frame.{
  set_decided_idx-SameLeader, SameVotes, SameVotes-trans, SameLeader, set_batch_accept_meta-batch,
  SameLeader-chosen_idx, set_accepted_stopsign-SameLeader, set_batch_accept_meta-SameVotes,
  set_accepted_idx-SameLeader,
}
use ik2203_distributed_coord.LeaderState.Votes.{
  vote_at-replicate, length-replicate, set_promise-Joins,
}
use ik2203_distributed_coord.Paxos.{Paxos, Role}
use ik2203_distributed_coord.Paxos.Leader.{
  become_leader, handle_leader, handle_preparereq, handle_accepted, handle_accepted_stopsign,
}
use ik2203_distributed_coord.Paxos.Handle.{dispatch}
use ik2203_distributed_coord.Paxos.Frame.{Sent, Sent-trans, Sent-local, IsHonest-later}
use ik2203_distributed_coord.Paxos.Frame.Sends.{send-Sent, send_all-Sent}
use ik2203_distributed_coord.Paxos.Frame.Batching.{decide_all-Sent}
use ik2203_distributed_coord.Paxos.Rounds.{
  Advance, Advance-refl, Advance-trans, Sent-Advance, Advance-follower_local, mine,
}
use ik2203_distributed_coord.Paxos.Frame.Leaders.{
  cleared-Sent, handle_forwarded_proposal-Sent, handle_forwarded_stopsign-Sent,
  handle_compaction-Sent,
}
use ik2203_distributed_coord.Paxos.Rounds.Promises.{handle_promise-Advance}
use ik2203_distributed_coord.Paxos.Rounds.Followers.{
  handle_prepare-Advance, handle_acceptsync-Advance, handle_firstaccept-Advance,
  handle_acceptdecide-Advance, handle_accept_stopsign-Advance, handle_decide-Advance,
  handle_decide_stopsign-Advance,
}

module _ {T S : Type 0} where
  -- The cache for one follower is cleared.
  cleared :
      (s : Paxos T S) (ls ls' : LeaderState T S)
      → SameLeader s.leader_state ls
      → SameVotes ls ls'
      → (k : ℕ) → ls'.batch_accept_meta ≡ set ls.batch_accept_meta k none
      → Sent s (record s { leader_state = ls' })
  cleared s ls ls' h v k b = record {
    n_prom = refl;
    acc_round = refl;
    ld = refl;
    votes = SameVotes-trans h.votes v;
    role = refl;
    phase = λ e. e;
    cached = refl;
    batches =
        λ x. rw (b, h.batch) (IsCached-cleared s.outgoing s.leader_state.batch_accept_meta k x);
    pid = refl;
    keeps = λ i a. a;
    talks = λ a. a;
  }

module _ {T S : Type 0} {H : Ballot → ℕ → Type 0} where
  -- Sending is a step that advances.
  pub advances :
      {s : Paxos T S} {m : Outcome (Paxos T S)} → Ensures (Sent s) m → Ensures (Advance H s) m
  advances h = Ensures-weaken h (λ t k. Sent-Advance k)

  -- The ballot of a new leader is above the promised round, and its own.
  become_leader-Advance :
      (s : Paxos T S) (n : Ballot)
      → Le s.storage.n_prom n
      → n.pid ≡ s.pid
      → Ensures (Advance H s) (become_leader s n)
  unfolding become_leader leader_state_with
  become_leader-Advance s n h own = Ensures-bind_any _ λ i e.
      Ensures-bind (set_promise-Joins _ _ s.pid true) λ r (k, _). Ensures-done (
        Advance-trans
          (record {
            grows = h;
            pid = refl;
            sound = λ x. record {
              accepted_le = Le-trans _ _ _ x.accepted_le h;
              leads = λ _. k.n_leader;
              own = λ _. rw k.n_leader own;
              cache = x.cache;
              honest = All-weaken (IsHonest-later h) x.honest;
              batches = rw k.batch (IsCached-replicate s.outgoing _);
            };
            size = record {
              max_pid = k.max_pid;
              majority = k.majority;
              members = λ _. rw (k.members, k.max_pid) (length-replicate _ none);
            };
            quorum = λ _ _. inl refl;
            counts = λ j _ v. elim (k.joined j v) [
              | inl c ↦ absurd (false≢true (sym (vote_at-replicate _ j) ∙ c))
              | inr c ↦ mine c
            ];
          })
          (Sent-Advance (send_all-Sent _ s.peers _ tt)))

  new_leader-Advance :
      (s s0 : Paxos T S) (n : Ballot)
      → Sent s s0
      → Le s.storage.n_prom n
      → Ensures
          (Advance H s)
          (if s.pid == n.pid then become_leader s0 n else done (record s0 { role = Role.follower }))
  new_leader-Advance s s0 n h le =
      Ensures-if _
        (λ e.
          Ensures-weaken
            (become_leader-Advance s0 n (rw h.n_prom le) (sym (h.pid ∙ (==_iff s.pid n.pid).0 e)))
            λ t k. Advance-trans (Sent-Advance h) k)
        (λ e. Ensures-done (
          Advance-trans (Sent-Advance h)
            (Advance-follower_local s0 _ refl refl refl refl (λ x. x.accepted_le) refl refl)))

  pub handle_leader-Advance :
      (s : Paxos T S) (n : Ballot) → Ensures (Advance H s) (handle_leader s n)
  unfolding handle_leader
  handle_leader-Advance s n =
      Ensures-if _ (λ e. Ensures-done (Advance-refl s))
        (λ e. new_leader-Advance s _ n (cleared-Sent s) (Le-total _ _ (||-eq-false _ _ e).1))

  handle_preparereq-Advance :
      (s : Paxos T S) (from : ℕ) → Ensures (Advance H s) (handle_preparereq s from)
  unfolding handle_preparereq
  handle_preparereq-Advance s from =
      Ensures-if _
        (λ e. Ensures-bind (set_decided_idx-SameLeader s.leader_state from none) λ ls h.
          Ensures-bind
            (Ensures-and (set_batch_accept_meta-SameVotes ls from none)
              (set_batch_accept_meta-batch ls from none))
            λ ls' (k, c). Ensures-bind_any _ λ i e'.
              Ensures-done
                (Sent-Advance (Sent-trans (cleared s ls ls' h k c.0 c.2) (send-Sent _ _ _ tt))))
        (λ e. Ensures-done (Advance-refl s))

  handle_accepted-Advance :
      (s : Paxos T S) (a : Accepted) (from : ℕ) → Ensures (Advance H s) (handle_accepted s a from)
  unfolding handle_accepted
  handle_accepted-Advance s a from =
      Ensures-if _
        (λ e. Ensures-bind (set_accepted_idx-SameLeader s.leader_state from a.accepted_idx) λ ls h.
          Ensures-if _
            (λ e'. Ensures-bind_any _ λ pids e''. Ensures-bind (decide_all-Sent _ _ pids) λ t k.
              Ensures-done (
                Advance-trans
                  (Sent-Advance (
                    Sent-trans
                      (Sent-local s _ refl refl refl (SameLeader-chosen_idx h) refl (λ e. e) refl
                        refl refl)
                      k))
                  (handle_decide-Advance t _)))
            (λ e'.
              Ensures-done
                (Sent-Advance (Sent-local s _ refl refl refl h refl (λ e. e) refl refl refl))))
        (λ e. Ensures-done (Advance-refl s))

  handle_accepted_stopsign-Advance :
      (s : Paxos T S) (a : AcceptedStopSign) (from : ℕ)
      → Ensures (Advance H s) (handle_accepted_stopsign s a from)
  unfolding handle_accepted_stopsign
  handle_accepted_stopsign-Advance s a from =
      Ensures-if _
        (λ e. Ensures-bind (set_accepted_stopsign-SameLeader s.leader_state from) λ ls h.
          let first : Advance H s (record s { leader_state = ls }) =
            Sent-Advance (Sent-local s _ refl refl refl h refl (λ e. e) refl refl refl) in
          Ensures-if _
            (λ e'. Ensures-bind (handle_decide_stopsign-Advance _ _) λ t k.
              Ensures-bind_any _ λ pids e''.
                Ensures-done (
                  Advance-trans first (Advance-trans k (Sent-Advance (send_all-Sent t pids _ tt)))))
            (λ e'. Ensures-done first))
        (λ e. Ensures-done (Advance-refl s))

module _ {T S : Type 0} where
  -- The message is a promise for the round `n` and comes from `q`.
  abbrev pub Promised : PaxosMsg T S → ℕ → Ballot → ℕ → Type 0
  Promised (promise p) from n q = (p.n ≡ n) × (from ≡ q)
  Promised _ from n q = ⊥

  pub dispatch-Advance :
      ⦃snap : Snapshot T S⦄ (s : Paxos T S) (from : ℕ) (m : PaxosMsg T S)
      → Ensures (Advance (Promised m from) s) (dispatch s from m)
  unfolding dispatch
  dispatch-Advance s from prepare_req = handle_preparereq-Advance s from
  dispatch-Advance s from (prepare prep) = handle_prepare-Advance s prep from
  dispatch-Advance s from (promise p) =
      handle_promise-Advance s.role s.phase s p from refl (refl, refl)
  dispatch-Advance s from (accept_sync a) = handle_acceptsync-Advance s a from
  dispatch-Advance s from (first_accept f) = Ensures-done (handle_firstaccept-Advance s f)
  dispatch-Advance s from (accept_decide a) = handle_acceptdecide-Advance s a
  dispatch-Advance s from (accepted a) = handle_accepted-Advance s a from
  dispatch-Advance s from (decide d) = Ensures-done (handle_decide-Advance s d)
  dispatch-Advance s from (proposal_forward es) = advances (handle_forwarded_proposal-Sent s es)
  dispatch-Advance s from (compaction c) = advances (handle_compaction-Sent s c)
  dispatch-Advance s from (accept_stopsign a) = handle_accept_stopsign-Advance s a
  dispatch-Advance s from (accepted_stopsign a) = handle_accepted_stopsign-Advance s a from
  dispatch-Advance s from (decide_stopsign d) = handle_decide_stopsign-Advance s d
  dispatch-Advance s from (forward_stopsign ss) = advances (handle_forwarded_stopsign-Sent s ss)
