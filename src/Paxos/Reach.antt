-- ===== src/Paxos/Reach.antt =====
-- The runs of a replica: whatever messages arrive and whatever its user calls, in any order.
use ik2203_distributed_coord.Prelude.{
  ℕ, ◌≡◌, refl, Bool, Option, none, some, List, [], done, Ensures, Ensures-done, Ensures-bind_any,
  Ensures-if, all_nil, ==_iff,
}
use ik2203_distributed_coord.Ballot.{Ballot, default}
use ik2203_distributed_coord.Ballot.Order.{Le, Le-refl}
use ik2203_distributed_coord.Storage.{Snapshot, Result, CompactionErr}
use ik2203_distributed_coord.Storage.Memory.{MemoryStorage}
use ik2203_distributed_coord.Messages.{PaxosMessage}
use ik2203_distributed_coord.LeaderState.{leader_state_with, reset_batch_accept_meta}
use ik2203_distributed_coord.Paxos.{
  Paxos, Role, Phase, fail_recovery, trim, snapshot, get_outgoing_msgs,
}
use ik2203_distributed_coord.Paxos.Leader.{handle_leader}
use ik2203_distributed_coord.Paxos.Handle.{
  handle, append, ReconfigurationRequest, reconfigure, ProposeErr, reconnected, SequencePaxosConfig,
  with_leader, new_replica, sequence_paxos_with,
}
use ik2203_distributed_coord.Paxos.Cached.{IsCached-replicate}
use ik2203_distributed_coord.Paxos.Frame.Calls.{append-Sent, reconfigure-Sent, trim-Sent}
use ik2203_distributed_coord.Paxos.Frame.Sends.{send-Sent, send_all-Sent}
use ik2203_distributed_coord.Paxos.Rounds.{
  IsSound, Advance, Advance-refl, Advance-trans, Sent-Advance, Advance-follower_local, Advance-if,
  Advance-weaken, follower-ne-leader, kept,
}
use ik2203_distributed_coord.Paxos.Frame.Leaders.{snapshot-Sent}
use ik2203_distributed_coord.Paxos.Rounds.Leaders.{
  handle_leader-Advance, dispatch-Advance, Promised,
}

-- the round a configuration starts in
abbrev pub start_round : Option Ballot → Ballot
start_round none = default
start_round (some l) = l

module _ {T S : Type 0} where
  -- A new replica over a storage in which nothing was accepted later than the round it starts in.
  new_replica-IsSound :
      (c : SequencePaxosConfig) (st : MemoryStorage T S) (m : ℕ) (r : Role) (p : Phase) (l : Ballot)
      (lds : Option (List (Option ℕ)))
      → Le st.acc_round l
      → (r ≡ Role.leader → l.pid ≡ c.pid)
      → IsSound (new_replica c st m r p l lds)
  unfolding new_replica leader_state_with
  new_replica-IsSound c st m r p l lds h o = record {
    accepted_le = h;
    leads = λ _. refl;
    own = o;
    cache = λ n i e. absurd (cc e);
    honest = all_nil;
    batches = IsCached-replicate [] _;
  }

  with_leader-IsSound :
      (c : SequencePaxosConfig) (st : MemoryStorage T S) (m : ℕ) (o : Option Ballot)
      → Le st.acc_round (start_round o)
      → Ensures IsSound (with_leader c st m o)
  unfolding with_leader
  with_leader-IsSound c st m none h =
      Ensures-done (new_replica-IsSound c st m _ _ _ none h follower-ne-leader)
  with_leader-IsSound c st m (some l) h =
      Ensures-if _
        (λ e. Ensures-bind_any _ λ v e'.
          Ensures-done
            (new_replica-IsSound c st m _ _ l (some v) h (λ _. (==_iff l.pid c.pid).0 e)))
        (λ e. Ensures-done (new_replica-IsSound c st m _ _ l none h follower-ne-leader))

  pub sequence_paxos_with-IsSound :
      (c : SequencePaxosConfig) (st : MemoryStorage T S)
      → Le st.acc_round (start_round c.skip_prepare_use_leader)
      → Ensures IsSound (sequence_paxos_with c st)
  unfolding sequence_paxos_with
  sequence_paxos_with-IsSound c st h =
      Ensures-bind_any _ λ m e. with_leader-IsSound c st m c.skip_prepare_use_leader h

module _ {T S : Type 0} {H : Ballot → ℕ → Type 0} where
  -- a step back to the recovering follower
  recovering-Advance :
      (s : Paxos T S) → Advance H s (record s { role = Role.follower; phase = Phase.recover })
  recovering-Advance s =
      Advance-follower_local s _ refl refl refl refl (λ x. x.accepted_le) refl refl

  reconnected-Advance : (s : Paxos T S) (pid : ℕ) → Advance H s (reconnected s pid)
  unfolding reconnected
  reconnected-Advance s pid =
      Advance-if _ (λ e. Advance-refl s)
        (λ e.
          Advance-trans (Advance-if _ (λ e'. recovering-Advance s) (λ e'. Advance-refl s))
            (Sent-Advance (send-Sent _ pid _ tt)))

  fail_recovery-Advance : (s : Paxos T S) → Advance H s (fail_recovery s)
  unfolding fail_recovery
  fail_recovery-Advance s =
      Advance-trans (recovering-Advance s) (Sent-Advance (send_all-Sent _ s.peers _ tt))

  get_outgoing_msgs-Advance : (s : Paxos T S) → Advance H s (get_outgoing_msgs s).0
  unfolding get_outgoing_msgs reset_batch_accept_meta
  get_outgoing_msgs-Advance s = record {
    grows = Le-refl _;
    pid = refl;
    sound = λ x. record {
      accepted_le = x.accepted_le;
      leads = x.leads;
      own = x.own;
      cache = λ n i e. absurd (cc e);
      honest = all_nil;
      batches = IsCached-replicate [] _;
    };
    size = record { max_pid = refl; majority = refl; members = λ e. e };
    quorum = λ q. q;
    counts = λ i r v. kept r refl v;
  }

module _ {T S : Type 0} ⦃snap : Snapshot T S⦄ where
  -- One call on the replica that does not panic.
  pub data Step (s : Paxos T S) : Paxos T S → Type 0 where
    receive : {t : Paxos T S} (m : PaxosMessage T S) → handle s m ≡ done t → Step s t
    elected : {t : Paxos T S} (n : Ballot) → handle_leader s n ≡ done t → Step s t
    propose :
        {t : Paxos T S} {r : Result Unit (ProposeErr T)} (e : T)
        → append s e ≡ done (t, r)
        → Step s t
    propose_config :
        {t : Paxos T S} {r : Result Unit (ProposeErr T)} (rc : ReconfigurationRequest)
        → reconfigure s rc ≡ done (t, r)
        → Step s t
    reconnect : (pid : ℕ) → Step s (reconnected s pid)
    recover : Step s (fail_recovery s)
    trims :
        {t : Paxos T S} {r : Result Unit CompactionErr} (i : Option ℕ)
        → trim s i ≡ done (t, r)
        → Step s t
    snapshots :
        {t : Paxos T S} {r : Result Unit CompactionErr} (i : Option ℕ) (local : Bool)
        → snapshot s i local ≡ done (t, r)
        → Step s t
    fetch : Step s (get_outgoing_msgs s).0

  pub data Reach (s : Paxos T S) : Paxos T S → Type 0 where
    here : Reach s s
    next : {t u : Paxos T S} → Reach s t → Step t u → Reach s u

  -- The promise that a step hears: for the round `n`, from `q`.
  abbrev pub Hears : {s t : Paxos T S} → Step s t → Ballot → ℕ → Type 0
  Hears (receive m e) n q = Promised m.msg m.from n q
  Hears _ n q = ⊥

  pub Step-Advance : {s t : Paxos T S} (st : Step s t) → Advance (Hears st) s t
  unfolding handle
  Step-Advance {s} {t} (receive m e) = (dispatch-Advance s m.from m.msg).at t e
  Step-Advance {s} {t} (elected n e) = (handle_leader-Advance s n).at t e
  Step-Advance {s} {t} (propose {r} x e) = Sent-Advance ((append-Sent s x).at (t, r) e)
  Step-Advance {s} {t} (propose_config {r} rc e) =
      Sent-Advance ((reconfigure-Sent s rc).at (t, r) e)
  Step-Advance {s} (reconnect pid) = reconnected-Advance s pid
  Step-Advance {s} recover = fail_recovery-Advance s
  Step-Advance {s} {t} (trims {r} i e) = Sent-Advance ((trim-Sent s i).at (t, r) e)
  Step-Advance {s} {t} (snapshots {r} i local e) =
      Sent-Advance ((snapshot-Sent s i local).at (t, r) e)
  Step-Advance {s} fetch = get_outgoing_msgs-Advance s

  Reach-Advance : {s t : Paxos T S} → Reach s t → Advance (λ n q. Unit) s t
  Reach-Advance {s} here = Advance-refl s
  Reach-Advance (next r st) =
      Advance-trans (Reach-Advance r) (Advance-weaken (λ n q h. tt) (Step-Advance st))

  -- In every run of a new replica whose storage accepted nothing after the starting round, the
  -- accepted round is at most the promised one, a leader leads the promised round, which is one of
  -- its own process, the cached index is that of an Accepted message, what is cached for a follower is
  -- the index of an AcceptDecide for it, of the round cached, and every outgoing message names the
  -- replica as its sender and, if it is a Promise or an Accepted or AcceptedStopSign answer, is for a
  -- round that is at most the promised one.
  pub Reach-IsSound :
      (c : SequencePaxosConfig) (st : MemoryStorage T S) {s t : Paxos T S}
      → Le st.acc_round (start_round c.skip_prepare_use_leader)
      → sequence_paxos_with c st ≡ done s
      → Reach s t
      → IsSound t
  Reach-IsSound c st {s} h e r =
      (Reach-Advance r).sound ((sequence_paxos_with-IsSound c st h).at s e)

  -- In every run of a replica the promised round at the end is at least that at the start.
  pub n_prom-grows : {s t : Paxos T S} → Reach s t → Le s.storage.n_prom t.storage.n_prom
  n_prom-grows r = (Reach-Advance r).grows
