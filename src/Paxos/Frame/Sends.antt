-- ===== src/Paxos/Frame/Sends.antt =====
-- Each sending operation satisfies `Sent`.
use ik2203_distributed_coord.Prelude.{
  ℕ, ◌≡◌, refl, Option, none, some, List, [], ◌∷◌, Ensures, Ensures-done, Ensures-bind,
  Ensures-bind_any, Ensures-if, Ensures-weaken, All-push,
}
use ik2203_distributed_coord.Storage.{StopSign, Snapshot}
use ik2203_distributed_coord.Storage.Frame.{append_entries-SameRounds}
use ik2203_distributed_coord.Messages.{PaxosMsg}
use ik2203_distributed_coord.Paxos.Cached.{IsCached-append}
use ik2203_distributed_coord.LeaderState.Frame.{
  set_accepted_stopsign-SameLeader, set_accepted_idx-SameLeader, SameVotes-refl,
}
use ik2203_distributed_coord.Paxos.{
  Paxos, Phase, send, send_all, accept_stopsign_entry, send_accept_stopsign,
}
use ik2203_distributed_coord.Paxos.Sending.{
  forward_proposals, forward_stopsign_to_leader, send_first_accept, send_accsync,
  adopt_pending_stopsign, append_pending_proposals,
}
use ik2203_distributed_coord.Paxos.Follower.{forward_pending_proposals}
use ik2203_distributed_coord.Paxos.Leader.{propose_stopsign}
use ik2203_distributed_coord.Paxos.Frame.{
  accepted_at-append, Sent, Sent-refl, Sent-trans, Sent-if, Sent-local, Sent-same, Claims,
  Sent-phase,
}

module _ {T S : Type 0} where
  pub send-Sent :
      (s : Paxos T S) (to : ℕ) (m : PaxosMsg T S) → Claims s.storage.n_prom m → Sent s (send s to m)
  unfolding send
  send-Sent s to m c = record {
    n_prom = refl;
    acc_round = refl;
    ld = refl;
    votes = SameVotes-refl _;
    role = refl;
    phase = λ e. e;
    cached = refl;
    batches = IsCached-append s.outgoing _ s.leader_state.batch_accept_meta;
    pid = refl;
    keeps = accepted_at-append s.outgoing _;
    talks = λ a. All-push a (record { from = refl; claim = c });
  }

  pub send_all-Sent :
      (s : Paxos T S) (pids : List ℕ) (m : PaxosMsg T S)
      → Claims s.storage.n_prom m
      → Sent s (send_all s pids m)
  unfolding send_all
  send_all-Sent s [] m c = Sent-refl s
  send_all-Sent s (to ∷ rest) m c =
      Sent-trans (send-Sent s to m c) (send_all-Sent (send s to m) rest m c)

  pub forward_proposals-Sent : (s : Paxos T S) (es : List T) → Sent s (forward_proposals s es)
  unfolding forward_proposals
  forward_proposals-Sent s es =
      Sent-if _ (send-Sent s _ _ tt) (Sent-same s _ refl refl refl refl refl refl refl refl refl)

  pub forward_stopsign_to_leader-Sent :
      (s : Paxos T S) (ss : StopSign) → Sent s (forward_stopsign_to_leader s ss)
  unfolding forward_stopsign_to_leader
  forward_stopsign_to_leader-Sent s ss =
      Sent-if _ (send-Sent s _ _ tt) (Sent-same s _ refl refl refl refl refl refl refl refl refl)

  pub forward_pending_proposals-Sent : (s : Paxos T S) → Sent s (forward_pending_proposals s)
  unfolding forward_pending_proposals
  forward_pending_proposals-Sent s = Sent-if _ (Sent-refl s) (
      Sent-trans (Sent-same s _ refl refl refl refl refl refl refl refl refl)
        (forward_proposals-Sent _ _))

  pub accept_stopsign_entry-Sent :
      (s : Paxos T S) (ss : StopSign) → Ensures (Sent s) (accept_stopsign_entry s ss)
  unfolding accept_stopsign_entry
  accept_stopsign_entry-Sent s ss =
      Ensures-if _
        (λ e.
          Ensures-bind (set_accepted_stopsign-SameLeader s.leader_state s.pid)
            λ ls h. Ensures-done (Sent-local s _ refl refl refl h refl (λ e. e) refl refl refl))
        (λ e. Ensures-done (Sent-same s _ refl refl refl refl refl refl refl refl refl))

  send_accept_stopsign-Sent :
      (s : Paxos T S) (ss : StopSign) → Ensures (Sent s) (send_accept_stopsign s ss)
  unfolding send_accept_stopsign
  send_accept_stopsign-Sent s ss =
      Ensures-bind_any _ λ pids e. Ensures-done (send_all-Sent s pids _ tt)

  pub propose_stopsign-Sent :
      (s : Paxos T S) (ss : StopSign) → Ensures (Sent s) (propose_stopsign s ss)
  unfolding propose_stopsign
  propose_stopsign-Sent s ss =
      Ensures-bind (accept_stopsign_entry-Sent s ss)
        λ t h. Ensures-weaken (send_accept_stopsign-Sent t ss) λ u k. Sent-trans h k

  pub send_first_accept-Sent :
      (s : Paxos T S) → s.phase ≡ Phase.first_accept → Ensures (Sent s) (send_first_accept s)
  unfolding send_first_accept
  send_first_accept-Sent s p = Ensures-bind_any _ λ pids e.
      Ensures-done (Sent-phase Phase.accept (send_all-Sent s pids _ tt) (λ e'. absurd (cc (p, e'))))

  pub append_pending_proposals-Sent :
      (s : Paxos T S) → Ensures (Sent s) (append_pending_proposals s)
  unfolding append_pending_proposals
  append_pending_proposals-Sent s =
      Ensures-if _ (λ e. Ensures-done (Sent-refl s))
        (λ e. Ensures-bind (append_entries-SameRounds s.storage s.pending_proposals) λ r h.
          Ensures-bind (set_accepted_idx-SameLeader s.leader_state s.pid r.1) λ ls k.
            Ensures-done (Sent-local s _ h.n_prom h.acc_round h.ld k refl (λ e. e) refl refl refl))

  pub adopt_pending_stopsign-Sent :
      (s : Paxos T S) (o : Option StopSign) → Ensures (Sent s) (adopt_pending_stopsign s o)
  unfolding adopt_pending_stopsign
  adopt_pending_stopsign-Sent s none = Ensures-done (Sent-refl s)
  adopt_pending_stopsign-Sent s (some ss) =
      Ensures-weaken (accept_stopsign_entry-Sent (record s { pending_stopsign = none }) ss)
        λ t h. Sent-trans (Sent-same s _ refl refl refl refl refl refl refl refl refl) h

  pub send_accsync-Sent :
      ⦃snap : Snapshot T S⦄ (s : Paxos T S) (to : ℕ) → Ensures (Sent s) (send_accsync s to)
  unfolding send_accsync
  send_accsync-Sent s to =
      Ensures-bind_any _ λ meta e. Ensures-bind_any _ λ item e'. Ensures-done (send-Sent s _ _ tt)
