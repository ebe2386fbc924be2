-- ===== src/Paxos/Rounds/Followers.antt =====
-- The follower's handlers advance.
use ik2203_distributed_coord.Prelude.{
  suc, ℕ, ◌≡◌, refl, sym, ◌∙◌, Bool, true, Option, none, some, List, arith, &&-eq-true, Ensures,
  Ensures-done, Ensures-bind, Ensures-bind_any, Ensures-if, Ensures-weaken, Ensures-panic, subst,
  get_elem?, All-get, All-set, All-weaken, index-eq-done,
}
use ik2203_distributed_coord.Ballot.{Ballot}
use ik2203_distributed_coord.Ballot.Order.{Le, Le-refl, Le-trans, Le_of_eq, eq_ballot_iff}
use ik2203_distributed_coord.Storage.{
  StopSign, StopSignEntry, SnapshotType, complete, delta, phantom, Snapshot,
}
use ik2203_distributed_coord.Storage.Memory.{MemoryStorage}
use ik2203_distributed_coord.Storage.Frame.{
  SameRounds, append_entries-SameRounds, append_on_prefix-SameRounds, set_snapshot-SameRounds,
  merge_snapshot-SameRounds,
}
use ik2203_distributed_coord.Messages.{
  Accepted, accept_decide, Prepare, AcceptSync, FirstAccept, AcceptDecide, Decide, AcceptStopSign,
  DecideStopSign, PaxosMsg, PaxosMessage, accepted,
}
use ik2203_distributed_coord.Paxos.{
  Paxos, Role, Phase, send, is_prepare, is_first_accept, is_accept,
}
use ik2203_distributed_coord.Paxos.Follower.{
  following, handle_prepare, sync_log, adopt_stopsign, sync_stopsign, handle_acceptsync,
  handle_firstaccept, update_accepted, push_accepted, reply_accepted, accept_entries,
  handle_acceptdecide, handle_accept_stopsign, handle_decide, handle_decide_stopsign,
}
use ik2203_distributed_coord.Paxos.Frame.{
  Sent, Sent-refl, Sent-trans, Sent-same, accepted_at-set_accepted, Claims, IsHonest-later,
}
use ik2203_distributed_coord.Paxos.Frame.Sends.{
  send-Sent, forward_pending_proposals-Sent, accept_stopsign_entry-Sent,
}
use ik2203_distributed_coord.Paxos.Rounds.{
  Advance, Advance-refl, Advance-trans, Sent-Advance, Advance-local, Advance-pushed, Advance-if,
  Advance-follower, Advance-follower_local,
}
use ik2203_distributed_coord.LeaderState.Frame.{SameVotes-refl, SameLeader-refl}
use ik2203_distributed_coord.Paxos.Cached.{Points-set}

module _ {T S : Type 0} where
  accept_decide-ne :
      {m : PaxosMsg T S} {a : Accepted} {d : AcceptDecide T}
      → m ≡ accepted a
      → m ≡ accept_decide d
      → ⊥
  accept_decide-ne e q = absurd (cc (e, q))

  -- The test `following` gives the promised round.
  following-n_prom :
      (s : Paxos T S) (n : Ballot) (p : Phase → Bool)
      → following s n p ≡ true
      → s.storage.n_prom ≡ n
  following-n_prom s n p h = (eq_ballot_iff _ _).0 (&&-eq-true _ _ h).0

  following-role :
      (s : Paxos T S) (n : Ballot) (p : Phase → Bool)
      → following s n p ≡ true
      → s.role ≡ Role.follower
  following-role s n p h = ground arith

  sync_log-SameRounds :
      ⦃snap : Snapshot T S⦄ (st : MemoryStorage T S) (a : AcceptSync T S)
      (o : Option (SnapshotType S))
      → Ensures (λ r. SameRounds st r.0) (sync_log st a o)
  unfolding sync_log
  sync_log-SameRounds st a none = append_on_prefix-SameRounds st a.sync_idx a.suffix
  sync_log-SameRounds st a (some (complete c)) =
      Ensures-bind (set_snapshot-SameRounds st a.decided_idx c)
        λ st' h. Ensures-weaken (append_entries-SameRounds st' a.suffix) λ r k. ground (arith, h, k)
  sync_log-SameRounds st a (some (delta d)) =
      Ensures-bind (merge_snapshot-SameRounds st a.decided_idx d)
        λ st' h. Ensures-weaken (append_entries-SameRounds st' a.suffix) λ r k. ground (arith, h, k)
  sync_log-SameRounds st a (some phantom) = Ensures-panic

  sync_stopsign-Sent :
      (s : Paxos T S) (a : AcceptSync T S) (from : ℕ) (o : Option StopSign)
      → s.storage.n_prom ≡ a.n
      → Ensures (Sent s) (sync_stopsign s a from o)
  unfolding sync_stopsign
  sync_stopsign-Sent s a from none q = Ensures-done (forward_pending_proposals-Sent s)
  sync_stopsign-Sent s a from (some ss) q =
      Ensures-bind (adopt s.storage.stopsign)
        λ t h. Ensures-done (Sent-trans h (send-Sent t _ _ (Le_of_eq (sym (h.n_prom ∙ q)))))
    where
      adopt : (o : Option StopSignEntry) → Ensures (Sent s) (adopt_stopsign s ss o)
      adopt none = accept_stopsign_entry-Sent s ss
      adopt (some mine) =
          Ensures-if _ (λ e. Ensures-done (Sent-refl s)) (λ e. accept_stopsign_entry-Sent s ss)

module _ {T S : Type 0} {H : Ballot → ℕ → Type 0} where
  module _ ⦃snap : Snapshot T S⦄ where
    pub handle_prepare-Advance :
        (s : Paxos T S) (prep : Prepare) (from : ℕ)
        → Ensures (Advance H s) (handle_prepare s prep from)
    unfolding handle_prepare
    handle_prepare-Advance s prep from =
        Ensures-if _
          (λ e. Ensures-bind_any _ λ i e'. Ensures-bind_any _ λ item e''.
            Ensures-done (Advance-trans (promised e) (Sent-Advance (send-Sent _ _ _ (Le-refl _)))))
          (λ e. Ensures-done (Advance-refl s))
      where
        promised :
            Le s.storage.n_prom prep.n
            → Advance H s (record s {
              leader = prep.n;
              storage = record (s.storage) { n_prom = prep.n };
              role = Role.follower;
              phase = Phase.prepare;
            })
        promised h =
            Advance-follower s _ refl refl refl h (λ x. Le-trans _ _ _ x.accepted_le h)
              (λ n i x e. x.cache n i e) (λ x. All-weaken (IsHonest-later h) x) (λ x. x)

  -- a new decided index
  redecided :
      (s : Paxos T S) (i : ℕ) → Advance H s (record s { storage = record (s.storage) { ld = i } })
  redecided s i =
      Advance-local s _ refl (λ x. x.accepted_le) refl (SameLeader-refl _) (λ q. q) refl refl refl

  pub handle_acceptsync-Advance :
      ⦃snap : Snapshot T S⦄ (s : Paxos T S) (a : AcceptSync T S) (from : ℕ)
      → Ensures (Advance H s) (handle_acceptsync s a from)
  unfolding handle_acceptsync send
  handle_acceptsync-Advance s a from =
      Ensures-if _
        (λ e. Ensures-bind (sync_log-SameRounds s.storage a a.decided_snapshot) λ r h.
          let q = following-n_prom s a.n is_prepare e in
          Ensures-bind (sync_stopsign-Sent _ a from a.stopsign (h.n_prom ∙ q)) λ t k. Ensures-done (
            Advance-trans
              (Advance-pushed s _ a.n _ _ refl refl refl h.n_prom
                (λ x. Le_of_eq (sym (h.n_prom ∙ q))) refl refl refl refl q)
              (Advance-trans (Sent-Advance k) (redecided t a.decided_idx))))
        (λ e. Ensures-done (Advance-refl s))

  pub handle_firstaccept-Advance :
      (s : Paxos T S) (f : FirstAccept) → Advance H s (handle_firstaccept s f)
  unfolding handle_firstaccept
  handle_firstaccept-Advance s f =
      Advance-if _
        (λ e.
          Advance-trans
            (Advance-follower_local s _ (following-role s f.n is_first_accept e) refl refl refl
              (λ x. Le_of_eq (sym (following-n_prom s f.n is_first_accept e))) refl refl)
            (Sent-Advance (forward_pending_proposals-Sent _)))
        (λ e. Advance-refl s)

  -- a cached Accepted that is given a new index stays an Accepted of its round
  update_accepted-Advance :
      (s : Paxos T S) (i idx : ℕ) (m : PaxosMessage T S) (msg : PaxosMsg T S)
      → get_elem? s.outgoing i ≡ some m
      → m.msg ≡ msg
      → Ensures (Advance H s) (update_accepted s i idx m msg)
  unfolding update_accepted
  update_accepted-Advance s i idx m (accepted a) g q = Ensures-done (
      Sent-Advance (record {
        n_prom = refl;
        acc_round = refl;
        ld = refl;
        votes = SameVotes-refl _;
        role = refl;
        phase = λ e. e;
        cached = refl;
        batches = λ h. record {
          at = λ j n i' x.
              Points-set s.outgoing i m _ g (λ to b d. absurd (accept_decide-ne q d.msg_eq)) (suc j)
                n i' (h.at j n i' x);
        };
        pid = refl;
        keeps = λ j h. accepted_at-set_accepted s.outgoing i _ j refl h;
        talks = λ h.
            let x = All-get i h g in
            All-set i h
              (record { from = x.from; claim = subst (Claims s.storage.n_prom) q x.claim });
      }))
  update_accepted-Advance s i idx m _ g q = Ensures-panic

  push_accepted-Advance :
      (s : Paxos T S) (n : Ballot) (idx : ℕ)
      → s.role ≡ Role.follower
      → s.storage.n_prom ≡ n
      → Advance H s (push_accepted s n idx)
  unfolding push_accepted send
  push_accepted-Advance s n idx r q =
      Advance-pushed s _ n _ _ r refl refl refl (λ x. x.accepted_le) refl refl refl refl q

  reply_accepted-Advance :
      (s : Paxos T S) (n : Ballot) (idx : ℕ) (o : Option (Ballot × ℕ))
      → s.role ≡ Role.follower
      → s.storage.n_prom ≡ n
      → Ensures (Advance H s) (reply_accepted s n idx o)
  unfolding reply_accepted
  reply_accepted-Advance s n idx none r q = Ensures-done (push_accepted-Advance s n idx r q)
  reply_accepted-Advance s n idx (some (round, i)) r q =
      Ensures-if _
        (λ e.
          Ensures-bind_any _
            λ m g. update_accepted-Advance s i idx m m.msg (index-eq-done s.outgoing i g) refl)
        (λ e. Ensures-done (push_accepted-Advance s n idx r q))

  accept_entries-Advance :
      (s : Paxos T S) (n : Ballot) (es : List T)
      → s.role ≡ Role.follower
      → s.storage.n_prom ≡ n
      → Ensures (Advance H s) (accept_entries s n es)
  unfolding accept_entries
  accept_entries-Advance s n es r q = Ensures-bind (append_entries-SameRounds s.storage es) λ x h.
      Ensures-weaken (reply_accepted-Advance _ n x.1 s.latest_accepted_meta r (h.n_prom ∙ q)) λ t k.
        Advance-trans
          (Sent-Advance (
            Sent-same s (record s { storage = x.0 }) h.n_prom h.acc_round h.ld refl refl refl refl
              refl refl))
          k

  pub handle_acceptdecide-Advance :
      (s : Paxos T S) (acc : AcceptDecide T) → Ensures (Advance H s) (handle_acceptdecide s acc)
  unfolding handle_acceptdecide
  handle_acceptdecide-Advance s acc =
      Ensures-if _
        (λ e.
          Ensures-bind
            (accept_entries-Advance s acc.n acc.entries (following-role s acc.n is_accept e)
              (following-n_prom s acc.n is_accept e))
            λ t h.
              Ensures-done
                (Advance-if _ (λ e'. Advance-trans h (redecided t acc.decided_idx)) (λ e'. h)))
        (λ e. Ensures-done (Advance-refl s))

  pub handle_accept_stopsign-Advance :
      (s : Paxos T S) (acc : AcceptStopSign) → Ensures (Advance H s) (handle_accept_stopsign s acc)
  unfolding handle_accept_stopsign
  handle_accept_stopsign-Advance s acc =
      Ensures-if _
        (λ e. Ensures-bind (accept_stopsign_entry-Sent s acc.ss) λ t h. Ensures-done (
          Sent-Advance (
            Sent-trans h (
              send-Sent t _ _ (Le_of_eq (sym (h.n_prom ∙ following-n_prom s acc.n is_accept e)))))))
        (λ e. Ensures-done (Advance-refl s))

  pub handle_decide-Advance : (s : Paxos T S) (d : Decide) → Advance H s (handle_decide s d)
  unfolding handle_decide
  handle_decide-Advance s d = Advance-if _ (λ e. redecided s d.decided_idx) (λ e. Advance-refl s)

  pub handle_decide_stopsign-Advance :
      (s : Paxos T S) (d : DecideStopSign) → Ensures (Advance H s) (handle_decide_stopsign s d)
  unfolding handle_decide_stopsign
  handle_decide_stopsign-Advance s d =
      Ensures-if _
        (λ e. Ensures-bind_any _ λ ss e1. Ensures-bind_any _ λ len e2. Ensures-bind_any _ λ i e3.
          Ensures-done (
            Advance-local s _ refl (λ x. x.accepted_le) refl (SameLeader-refl _) (λ q. q) refl refl
              refl))
        (λ e. Ensures-done (Advance-refl s))
