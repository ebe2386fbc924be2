-- ===== src/Paxos/Frame/Leaders.antt =====
-- What a leader does with proposals, the log it adopts and compaction satisfies `Sent`.
use ik2203_distributed_coord.Prelude.{
  ℕ, ◌≡◌, refl, Bool, true, Option, none, some, List, [], ◌∷◌, arith, Ensures, Ensures-done,
  Ensures-bind, Ensures-bind_any, Ensures-if, Ensures-weaken, Ensures-panic, if◌then◌else◌,
}
use ik2203_distributed_coord.Storage.{StopSign, SnapshotType, complete, delta, phantom, Snapshot}
use ik2203_distributed_coord.Storage.Memory.{MemoryStorage}
use ik2203_distributed_coord.Storage.Frame.{
  SameRounds, append_entries-SameRounds, append_on_decided_prefix-SameRounds,
  set_snapshot-SameRounds, merge_snapshot-SameRounds, try_trim-SameRounds, try_snapshot-SameRounds,
}
use ik2203_distributed_coord.Messages.{Compaction}
use ik2203_distributed_coord.LeaderState.{PromiseMetaData}
use ik2203_distributed_coord.Paxos.{Paxos, Role, Phase, handle_compaction, snapshot, stopped}
use ik2203_distributed_coord.Paxos.Leader.{
  propose_in, handle_forwarded_proposal, stopsign_in, handle_forwarded_stopsign, adopt_or_propose,
  adopt_snapshot, adopt_log, adopt_max_promise, send_accsync_all,
}
use ik2203_distributed_coord.Paxos.Frame.{Sent, Sent-refl, Sent-trans, Sent-same, Sent-if}
use ik2203_distributed_coord.Paxos.Frame.Sends.{
  send_all-Sent, forward_proposals-Sent, forward_stopsign_to_leader-Sent,
  accept_stopsign_entry-Sent, propose_stopsign-Sent, send_first_accept-Sent,
  append_pending_proposals-Sent, adopt_pending_stopsign-Sent, send_accsync-Sent,
}
use ik2203_distributed_coord.Paxos.Frame.Batching.{send_batch_accept-Sent}

module _ {T S : Type 0} where
  -- The proposals of a stopped replica are dropped first.
  pub cleared-Sent :
      (s : Paxos T S) → Sent s (if stopped s then record s { pending_proposals = [] } else s)
  cleared-Sent s =
      Sent-if _ (Sent-same s _ refl refl refl refl refl refl refl refl refl) (Sent-refl s)

  propose_in-Sent :
      (r : Role) (p : Phase) (s : Paxos T S) (es : List T)
      → s.phase ≡ p
      → Ensures (Sent s) (propose_in r p s es)
  unfolding propose_in
  propose_in-Sent Role.leader Phase.prepare s es q =
      Ensures-done (Sent-same s _ refl refl refl refl refl refl refl refl refl)
  propose_in-Sent Role.leader Phase.accept s es q = send_batch_accept-Sent s es
  propose_in-Sent Role.leader Phase.first_accept s es q =
      Ensures-bind (send_first_accept-Sent s q)
        λ t h. Ensures-weaken (send_batch_accept-Sent t es) λ u k. Sent-trans h k
  propose_in-Sent _ _ s es q = Ensures-done (forward_proposals-Sent s es)

  stopsign_in-Sent :
      (r : Role) (p : Phase) (s : Paxos T S) (ss : StopSign)
      → s.phase ≡ p
      → Ensures (Sent s) (stopsign_in r p s ss)
  unfolding stopsign_in
  stopsign_in-Sent Role.leader Phase.prepare s ss q =
      Ensures-done (Sent-same s _ refl refl refl refl refl refl refl refl refl)
  stopsign_in-Sent Role.leader Phase.accept s ss q =
      Ensures-if _ (λ e. propose_stopsign-Sent s ss) (λ e. Ensures-done (Sent-refl s))
  stopsign_in-Sent Role.leader Phase.first_accept s ss q =
      Ensures-bind (send_first_accept-Sent s q)
        λ t h. Ensures-weaken (propose_stopsign-Sent t ss) λ u k. Sent-trans h k
  stopsign_in-Sent _ _ s ss q = Ensures-done (forward_stopsign_to_leader-Sent s ss)

  pub handle_forwarded_proposal-Sent :
      (s : Paxos T S) (es : List T) → Ensures (Sent s) (handle_forwarded_proposal s es)
  unfolding handle_forwarded_proposal
  handle_forwarded_proposal-Sent s es =
      Ensures-if _ (λ e. Ensures-done (Sent-refl s)) (λ e. propose_in-Sent s.role s.phase s es refl)

  pub handle_forwarded_stopsign-Sent :
      (s : Paxos T S) (ss : StopSign) → Ensures (Sent s) (handle_forwarded_stopsign s ss)
  unfolding handle_forwarded_stopsign
  handle_forwarded_stopsign-Sent s ss =
      Ensures-if _ (λ e. Ensures-done (Sent-refl s))
        (λ e. stopsign_in-Sent s.role s.phase s ss refl)

  adopt_or_propose-Sent :
      (s : Paxos T S) (o : Option StopSign) → Ensures (Sent s) (adopt_or_propose s o)
  unfolding adopt_or_propose
  adopt_or_propose-Sent s (some ss) = accept_stopsign_entry-Sent s ss
  adopt_or_propose-Sent s none =
      Ensures-bind (append_pending_proposals-Sent s) λ t h.
        Ensures-weaken (adopt_pending_stopsign-Sent t t.pending_stopsign) λ u k. Sent-trans h k

  module _ ⦃snap : Snapshot T S⦄ where
    adopt_snapshot-SameRounds :
        (st : MemoryStorage T S) (i : ℕ) (x : SnapshotType S)
        → Ensures (SameRounds st) (adopt_snapshot st i x)
    unfolding adopt_snapshot
    adopt_snapshot-SameRounds st i (complete c) = set_snapshot-SameRounds st i c
    adopt_snapshot-SameRounds st i (delta d) = merge_snapshot-SameRounds st i d
    adopt_snapshot-SameRounds st i phantom = Ensures-panic

    adopt_log-SameRounds :
        (s : Paxos T S) (meta : PromiseMetaData) (o : Option (SnapshotType S)) (es : List T)
        → Ensures (λ r. SameRounds s.storage r.0) (adopt_log s meta o es)
    unfolding adopt_log
    adopt_log-SameRounds s meta (some x) es = Ensures-bind_any _ λ o e. Ensures-bind_any _ λ i e'.
        Ensures-bind (adopt_snapshot-SameRounds s.storage i x)
          λ st h. Ensures-weaken (append_entries-SameRounds st es) λ r k. ground (arith, h, k)
    adopt_log-SameRounds s meta none es =
        Ensures-if _ (λ e. append_entries-SameRounds s.storage es)
          (λ e. append_on_decided_prefix-SameRounds s.storage es)

    pub adopt_max_promise-Sent :
        (s : Paxos T S) (p : Option (Option (SnapshotType S) × List T)) (o : Option StopSign)
        → Ensures (Sent s) (adopt_max_promise s p o)
    unfolding adopt_max_promise
    adopt_max_promise-Sent s none o = adopt_or_propose-Sent s none
    adopt_max_promise-Sent s (some (x, es)) o =
        Ensures-bind (adopt_log-SameRounds s s.leader_state.max_promise_meta x es) λ r h.
          Ensures-weaken (adopt_or_propose-Sent (record s { storage = r.0 }) o) λ t k.
            Sent-trans (Sent-same s _ h.n_prom h.acc_round h.ld refl refl refl refl refl refl) k

    pub send_accsync_all-Sent :
        (s : Paxos T S) (pids : List ℕ) → Ensures (Sent s) (send_accsync_all s pids)
    unfolding send_accsync_all
    send_accsync_all-Sent s [] = Ensures-done (Sent-refl s)
    send_accsync_all-Sent s (to ∷ rest) =
        Ensures-bind (send_accsync-Sent s to)
          λ t h. Ensures-weaken (send_accsync_all-Sent t rest) λ u k. Sent-trans h k

    pub snapshot-Sent :
        (s : Paxos T S) (i : Option ℕ) (local : Bool)
        → Ensures (λ r. Sent s r.0) (snapshot s i local)
    unfolding snapshot
    snapshot-Sent s i local = Ensures-bind (try_snapshot-SameRounds s.storage i) λ r h.
        Ensures-done (
          Sent-trans (Sent-same s _ h.n_prom h.acc_round h.ld refl refl refl refl refl refl)
            (Sent-if _ (send_all-Sent _ s.peers _ tt) (Sent-refl _)))

    pub handle_compaction-Sent :
        (s : Paxos T S) (c : Compaction) → Ensures (Sent s) (handle_compaction s c)
    unfolding handle_compaction
    handle_compaction-Sent s (Compaction.trim i) =
        Ensures-bind (try_trim-SameRounds s.storage i) λ r h.
          Ensures-done (Sent-same s _ h.n_prom h.acc_round h.ld refl refl refl refl refl refl)
    handle_compaction-Sent s (Compaction.snapshot i) =
        Ensures-bind (snapshot-Sent s i true) λ r h. Ensures-done h
