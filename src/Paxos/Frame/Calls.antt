-- ===== src/Paxos/Frame/Calls.antt =====
-- The calls of a replica's user satisfy `Sent`.
use ik2203_distributed_coord.Prelude.{
  ℕ, ◌≡◌, refl, Option, none, some, [], ◌∷◌, Ensures, Ensures-done, Ensures-bind, Ensures-bind_any,
  Ensures-if, Ensures-weaken,
}
use ik2203_distributed_coord.Storage.{StopSign, Result, CompactionErr}
use ik2203_distributed_coord.Storage.Frame.{try_trim-SameRounds}
use ik2203_distributed_coord.Paxos.{Paxos, Role, Phase, trim, trim_to}
use ik2203_distributed_coord.Paxos.Handle.{
  propose_entry, append, ReconfigurationRequest, reconfigure_pending, reconfigure_in, reconfigure,
}
use ik2203_distributed_coord.Paxos.Frame.{Sent, Sent-refl, Sent-trans, Sent-same, Sent-if}
use ik2203_distributed_coord.Paxos.Frame.Sends.{
  send_all-Sent, forward_proposals-Sent, forward_stopsign_to_leader-Sent, propose_stopsign-Sent,
  send_first_accept-Sent,
}
use ik2203_distributed_coord.Paxos.Frame.Batching.{send_accept-Sent}

module _ {T S : Type 0} where
  propose_entry-Sent :
      (r : Role) (p : Phase) (s : Paxos T S) (e : T)
      → s.phase ≡ p
      → Ensures (Sent s) (propose_entry r p s e)
  unfolding propose_entry
  propose_entry-Sent Role.leader Phase.prepare s e q =
      Ensures-done (Sent-same s _ refl refl refl refl refl refl refl refl refl)
  propose_entry-Sent Role.leader Phase.accept s e q = send_accept-Sent s e
  propose_entry-Sent Role.leader Phase.first_accept s e q =
      Ensures-bind (send_first_accept-Sent s q)
        λ t h. Ensures-weaken (send_accept-Sent t e) λ u k. Sent-trans h k
  propose_entry-Sent _ _ s e q = Ensures-done (forward_proposals-Sent s (e ∷ []))

  pub append-Sent : (s : Paxos T S) (e : T) → Ensures (λ r. Sent s r.0) (append s e)
  unfolding append
  append-Sent s e =
      Ensures-if _ (λ q. Ensures-done (Sent-refl s))
        (λ q. Ensures-bind (propose_entry-Sent s.role s.phase s e refl) λ t h. Ensures-done h)

  reconfigure_pending-Sent :
      (s : Paxos T S) (rc : ReconfigurationRequest) (o : Option StopSign)
      → Ensures (λ x. Sent s x.0) (reconfigure_pending s rc o)
  unfolding reconfigure_pending
  reconfigure_pending-Sent s rc none =
      Ensures-bind_any _
        λ c e. Ensures-done (Sent-same s _ refl refl refl refl refl refl refl refl refl)
  reconfigure_pending-Sent s rc (some _) = Ensures-done (Sent-refl s)

  reconfigure_in-Sent :
      (r : Role) (p : Phase) (s : Paxos T S) (rc : ReconfigurationRequest)
      → s.phase ≡ p
      → Ensures (λ x. Sent s x.0) (reconfigure_in r p s rc)
  unfolding reconfigure_in
  reconfigure_in-Sent Role.leader Phase.prepare s rc q =
      reconfigure_pending-Sent s rc s.pending_stopsign
  reconfigure_in-Sent Role.leader Phase.accept s rc q =
      Ensures-bind_any _ λ c e. Ensures-bind (propose_stopsign-Sent s _) λ t h. Ensures-done h
  reconfigure_in-Sent Role.leader Phase.first_accept s rc q =
      Ensures-bind (send_first_accept-Sent s q) λ t h.
        Ensures-bind_any _
          λ c e. Ensures-bind (propose_stopsign-Sent t _) λ u k. Ensures-done (Sent-trans h k)
  reconfigure_in-Sent _ _ s rc q =
      Ensures-bind_any _ λ c e. Ensures-done (forward_stopsign_to_leader-Sent s _)

  pub reconfigure-Sent :
      (s : Paxos T S) (rc : ReconfigurationRequest) → Ensures (λ x. Sent s x.0) (reconfigure s rc)
  unfolding reconfigure
  reconfigure-Sent s rc =
      Ensures-if _ (λ e. Ensures-done (Sent-refl s))
        (λ e. reconfigure_in-Sent s.role s.phase s rc refl)

  trim_to-Sent :
      (s : Paxos T S) (r : Result ℕ CompactionErr) → Ensures (λ x. Sent s x.0) (trim_to s r)
  unfolding trim_to
  trim_to-Sent s (Result.err e) = Ensures-done (Sent-refl s)
  trim_to-Sent s (Result.ok i) = Ensures-bind (try_trim-SameRounds s.storage i) λ r h.
      Ensures-done (
        Sent-trans (Sent-same s _ h.n_prom h.acc_round h.ld refl refl refl refl refl refl)
          (Sent-if _ (send_all-Sent _ s.peers _ tt) (Sent-refl _)))

  pub trim-Sent : (s : Paxos T S) (i : Option ℕ) → Ensures (λ x. Sent s x.0) (trim s i)
  unfolding trim
  trim-Sent s i =
      Ensures-if _ (λ e. Ensures-bind_any _ λ m e'. trim_to-Sent s _)
        (λ e. Ensures-done (Sent-refl s))
