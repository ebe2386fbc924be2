-- ===== src/Exchange/Runs.antt =====
-- ddbb_server/src/omni_paxos_server/mod.rs: the arms of `run` as runs of the replica and of the senders.
use ik2203_distributed_coord.Prelude.{ℕ, ◌≡◌, refl, sym, List, [], ◌∷◌, ◌++◌, done, >>=-eq-done}
use mathlib.Core.Path.{subst}
use mathlib.Core.List.{append_assoc, append-nil}
use ik2203_distributed_coord.Storage.{Snapshot}
use ik2203_distributed_coord.Messages.{Message, get_receiver}
use ik2203_distributed_coord.Paxos.Reach.{Reach, here}
use ik2203_distributed_coord.Omni.{election_timeout, outgoing_messages, handle_incoming}
use ik2203_distributed_coord.Omni.Refines.{times_out, receives, fetches, OmniStep-Reach}
use ik2203_distributed_coord.Simo.{OmniSimo, receive_message, send_message, send_outgoing_msgs}
use ik2203_distributed_coord.Simo.Steps.{Run, queues, incoming, Fate}
use ik2203_distributed_coord.Exchange.{
  OmniPaxosServer, Arm, election_tick, outgoing_tick, in_msg, handle_received, run_arm,
}

send_outgoing_msgs-Run :
    {M : Type 0} (receiver : M → ℕ) (ms : List M) (s : OmniSimo M) (q : List M) (l : List (Fate M))
    → Run receiver s q l
    → Run receiver (send_outgoing_msgs ms s) (q ++ ms) l
unfolding send_outgoing_msgs
send_outgoing_msgs-Run receiver [] s q l r = subst (λ x. Run receiver s x l) (sym (append-nil q)) r
send_outgoing_msgs-Run receiver (m ∷ ms) s q l r =
    subst (λ x. Run receiver (send_outgoing_msgs ms (send_message m s)) x l)
      (append_assoc q (m ∷ []) ms)
      (send_outgoing_msgs-Run receiver ms (send_message m s) (q ++ m ∷ []) l (queues s q l m r))

module _ {T S : Type 0} ⦃snap : Snapshot T S⦄ where
  -- what an arm puts into the outgoing buffer
  abbrev pub sent : Arm → OmniPaxosServer T S → List (Message T S)
  sent outgoing_tick s = (outgoing_messages s.omni_paxos_instance).1
  sent _ s = []

  -- What `in_msg` does with what arrived: the first message is taken and handled.
  unfoldable pub Handles : OmniPaxosServer T S → OmniPaxosServer T S → List (Message T S) → Type 0
  Handles s t [] = t ≡ s
  Handles s t (m ∷ rest) =
      (handle_incoming s.omni_paxos_instance m ≡ done t.omni_paxos_instance)
      × (t.omni_simo.incoming_buffer ≡ rest)

  -- The one call that an arm does.
  unfoldable pub Does : Arm → OmniPaxosServer T S → OmniPaxosServer T S → Type 0
  unfolding Handles
  Does election_tick s t =
      (election_timeout s.omni_paxos_instance ≡ done t.omni_paxos_instance)
      × (t.omni_simo ≡ s.omni_simo)
  Does outgoing_tick s t = t.omni_paxos_instance ≡ (outgoing_messages s.omni_paxos_instance).0
  Does in_msg s t = Handles s t s.omni_simo.incoming_buffer

  -- The call, the replica and the senders, of an arm that queued `ms`.
  pub record Goes (arm : Arm) (s t : OmniPaxosServer T S) (q ms : List (Message T S))
      (l : List (Fate (Message T S))) : Type 0 where
    pub call : Does arm s t
    pub replica : Reach s.omni_paxos_instance.seq_paxos t.omni_paxos_instance.seq_paxos
    pub senders : Run get_receiver t.omni_simo (q ++ ms) l

  Goes-still :
      (arm : Arm) (s t : OmniPaxosServer T S) (q : List (Message T S))
      (l : List (Fate (Message T S)))
      → Does arm s t
      → Reach s.omni_paxos_instance.seq_paxos t.omni_paxos_instance.seq_paxos
      → Run get_receiver t.omni_simo q l
      → Goes arm s t q [] l
  Goes-still arm s t q l c h r = record {
    call = c;
    replica = h;
    senders = subst (λ x. Run get_receiver t.omni_simo x l) (sym (append-nil q)) r;
  }

  handle_received-Goes :
      (s t : OmniPaxosServer T S) (q : List (Message T S)) (l : List (Fate (Message T S)))
      (buffer : List (Message T S))
      → s.omni_simo.incoming_buffer ≡ buffer
      → handle_received s (receive_message s.omni_simo) ≡ done t
      → Run get_receiver s.omni_simo q l
      → Goes in_msg s t q [] l
  unfolding handle_received receive_message Does Handles
  handle_received-Goes s t q l [] e h r =
      let z : s ≡ t = cc (rw e at h) in
      subst (λ x. Goes in_msg s x q [] l) z (Goes-still in_msg s s q l (rw e refl) here r)
  handle_received-Goes s t q l (m ∷ rest) e h r =
      let (o, h1, k) = >>=-eq-done (handle_incoming s.omni_paxos_instance m) _ (rw e at h) in
      let z : record s {
        omni_paxos_instance = o;
        omni_simo = record s.omni_simo { incoming_buffer = rest };
      }
          ≡ t =
        cc k in
      subst (λ x. Goes in_msg s x q [] l) z
        (Goes-still in_msg s _ q l (rw e (h1, refl)) (OmniStep-Reach (receives m h1))
          (incoming s.omni_simo q l rest r))

  -- An arm of `run` that returns does one call of the replica: the timeout of the election; the
  -- fetch of the outgoing messages; or the handling of the first message that arrived, which
  -- leaves the buffer, and nothing where none did. It is a run of the replica, and a run of the
  -- senders, to which it queues the messages that it fetches from the replica, all of them and in
  -- order, and none in the other arms.
  pub run_arm-Goes :
      (arm : Arm) (s t : OmniPaxosServer T S) (q : List (Message T S))
      (l : List (Fate (Message T S)))
      → run_arm arm s ≡ done t
      → Run get_receiver s.omni_simo q l
      → Goes arm s t q (sent arm s) l
  unfolding run_arm Does
  run_arm-Goes election_tick s t q l h r =
      let (o, h1, k) = >>=-eq-done (election_timeout s.omni_paxos_instance) _ h in
      let z : record s { omni_paxos_instance = o } ≡ t = cc k in
      subst (λ x. Goes election_tick s x q [] l) z
        (Goes-still election_tick s _ q l (h1, refl) (OmniStep-Reach (times_out h1)) r)
  run_arm-Goes outgoing_tick s t q l h r =
      let o = outgoing_messages s.omni_paxos_instance in
      let z : record s { omni_paxos_instance = o.0; omni_simo = send_outgoing_msgs o.1 s.omni_simo }
          ≡ t =
        cc h in
      subst (λ x. Goes outgoing_tick s x q o.1 l) z
        (record {
          call = refl;
          replica = OmniStep-Reach fetches;
          senders = send_outgoing_msgs-Run get_receiver o.1 s.omni_simo q l r;
        })
  run_arm-Goes in_msg s t q l h r =
      handle_received-Goes s t q l s.omni_simo.incoming_buffer refl h r
