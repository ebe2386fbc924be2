-- ===== src/Paxos/Rounds/Promises.antt =====
-- The leader's handlers of promises advance.
use ik2203_distributed_coord.Prelude.{
  ℕ, ◌≡◌, refl, ◌∙◌, true, false, Ensures, Ensures-done, Ensures-bind, Ensures-bind_any, Ensures-if,
  Ensures-weaken, sym, inl, inr, leb, leb_trans, subst,
}
use ik2203_distributed_coord.Ballot.{Ballot}
use ik2203_distributed_coord.Ballot.Order.{Le-refl, Le_of_eq, eq_ballot_iff}
use ik2203_distributed_coord.Storage.{Snapshot}
use ik2203_distributed_coord.Messages.{Promise}
use ik2203_distributed_coord.LeaderState.{LeaderState}
use ik2203_distributed_coord.LeaderState.Frame.{SameLeader-refl}
use ik2203_distributed_coord.LeaderState.Votes.{Joins-SameSize, votes, Joins, set_promise-Joins}
use ik2203_distributed_coord.Paxos.{Paxos, Role, Phase}
use ik2203_distributed_coord.Paxos.Leader.{
  handle_majority_promises, handle_promise_prepare, handle_promise_accept, handle_promise_prepare,
}
use ik2203_distributed_coord.Paxos.Handle.{handle_promise}
use ik2203_distributed_coord.Paxos.Frame.Sends.{send_accsync-Sent}
use ik2203_distributed_coord.Paxos.Rounds.{
  Advance, Advance-refl, Advance-trans, Sent-Advance, Advance-local, kept, heard,
}
use ik2203_distributed_coord.Paxos.Frame.Leaders.{adopt_max_promise-Sent, send_accsync_all-Sent}

module _ {T S : Type 0} {H : Ballot → ℕ → Type 0} ⦃snap : Snapshot T S⦄ where
  -- The accepted round becomes the round that is led, which is the promised one.
  handle_majority_promises-Advance :
      (s : Paxos T S)
      → s.role ≡ Role.leader
      → leb s.leader_state.majority (votes s.leader_state) ≡ true
      → Ensures (Advance H s) (handle_majority_promises s)
  unfolding handle_majority_promises
  handle_majority_promises-Advance s lead maj = Ensures-bind_any _ λ i e.
      Ensures-bind (adopt_max_promise-Sent _ _ _) λ t h. Ensures-bind_any _ λ pids e'.
        Ensures-weaken (send_accsync_all-Sent _ pids) λ u k.
          Advance-trans
            (Advance-local s _ refl (λ x. x.accepted_le) (sym lead)
              (record {
                votes = record {
                  n_leader = refl;
                  promises_meta = refl;
                  majority = refl;
                  max_pid = refl;
                };
                batch = refl;
              })
              (λ _ _. inr maj) refl refl refl)
            (Advance-trans
              (Advance-trans (Sent-Advance h) (
                Advance-local t _ refl (λ x. Le_of_eq (x.leads h.role)) refl (SameLeader-refl _)
                  (λ q. q) refl refl refl))
              (Sent-Advance k))

  -- A leader that counts one more promise.
  promised :
      (s : Paxos T S) (ls : LeaderState T S) (from : ℕ)
      → Joins from s.leader_state ls
      → H s.leader_state.n_leader from
      → Advance H s (record s { leader_state = ls })
  promised s ls from k heard_it = record {
    grows = Le-refl _;
    pid = refl;
    sound = λ x. record {
      accepted_le = x.accepted_le;
      leads = λ r. k.n_leader ∙ x.leads r;
      own = λ r. rw k.n_leader (x.own r);
      cache = x.cache;
      honest = x.honest;
      batches = rw k.batch x.batches;
    };
    size = Joins-SameSize k;
    quorum = λ q r. elim (q r) [
      | inl p ↦ inl p
      | inr m ↦ inr (rw k.majority (leb_trans _ _ _ m k.more))
    ];
    counts = λ i r v. elim (k.joined i v) [
      | inl c ↦ kept r k.n_leader c
      | inr c ↦ heard (rw (k.n_leader, c) heard_it)
    ];
  }

  handle_promise_prepare-Advance :
      (s : Paxos T S) (p : Promise T S) (from : ℕ)
      → s.role ≡ Role.leader
      → H p.n from
      → Ensures (Advance H s) (handle_promise_prepare s p from)
  unfolding handle_promise_prepare
  handle_promise_prepare-Advance s p from lead heard_it =
      Ensures-if _
        (λ e. Ensures-bind (set_promise-Joins s.leader_state p from true) λ r (h, b).
          let step =
            promised s r.0 from h (subst (λ b. H b from) ((eq_ballot_iff _ _).0 e) heard_it) in
          Ensures-if _
            (λ e'.
              Ensures-weaken
                (handle_majority_promises-Advance (record s { leader_state = r.0 }) lead
                  (sym b ∙ e'))
                λ t k. Advance-trans step k)
            (λ e'. Ensures-done step))
        (λ e. Ensures-done (Advance-refl s))

  handle_promise_accept-Advance :
      (s : Paxos T S) (p : Promise T S) (from : ℕ)
      → H p.n from
      → Ensures (Advance H s) (handle_promise_accept s p from)
  unfolding handle_promise_accept
  handle_promise_accept-Advance s p from heard_it =
      Ensures-if _
        (λ e. Ensures-bind (set_promise-Joins s.leader_state p from false) λ r (h, b).
          Ensures-weaken (send_accsync-Sent (record s { leader_state = r.0 }) from) λ t k.
            Advance-trans
              (promised s r.0 from h (subst (λ b. H b from) ((eq_ballot_iff _ _).0 e) heard_it))
              (Sent-Advance k))
        (λ e. Ensures-done (Advance-refl s))

  pub handle_promise-Advance :
      (r : Role) (ph : Phase) (s : Paxos T S) (p : Promise T S) (from : ℕ)
      → s.role ≡ r
      → H p.n from
      → Ensures (Advance H s) (handle_promise r ph s p from)
  unfolding handle_promise
  handle_promise-Advance Role.leader Phase.prepare s p from e h =
      handle_promise_prepare-Advance s p from e h
  handle_promise-Advance Role.leader Phase.accept s p from e h =
      handle_promise_accept-Advance s p from h
  handle_promise-Advance _ _ s p from e h = Ensures-done (Advance-refl s)
