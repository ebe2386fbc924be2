-- ===== src/Paxos/Handle.antt =====
-- omnipaxos_core/src/sequence_paxos/mod.rs: the dispatch of an incoming message, and what the user
-- of a replica calls: `append`, `reconfigure`, `reconnected` and the constructor `with`.
use ik2203_distributed_coord.Prelude.{
  ℕ, ◌+◌, ◌/◌, Option, none, some, List, [], ◌∷◌, ◌++◌, length, replicate, ltb, ◌==◌, if◌then◌else◌,
  Outcome, done, panic, ◌>>=◌, add_u32, sub_u64, set_index,
}
use ik2203_distributed_coord.Ballot.{Ballot, default}
use ik2203_distributed_coord.Storage.{StopSign, stopsign_with, Snapshot, Result, ok, err}
use ik2203_distributed_coord.Storage.Memory.{MemoryStorage}
use ik2203_distributed_coord.Storage.Internal.{set_promise}
use ik2203_distributed_coord.Messages.{
  Promise, PaxosMsg, PaxosMessage, prepare_req, prepare, promise, accept_sync, first_accept,
  accept_decide, accepted, decide, proposal_forward, compaction, accept_stopsign, accepted_stopsign,
  decide_stopsign, forward_stopsign,
}
use ik2203_distributed_coord.LeaderState.{leader_state_with}
use ik2203_distributed_coord.Paxos.{Paxos, Role, Phase, send, stopped, handle_compaction}
use ik2203_distributed_coord.Paxos.Sending.{
  forward_proposals, forward_stopsign_to_leader, send_first_accept, send_accept,
}
use ik2203_distributed_coord.Paxos.Follower.{
  handle_prepare, handle_acceptsync, handle_firstaccept, handle_acceptdecide,
  handle_accept_stopsign, handle_decide, handle_decide_stopsign,
}
use ik2203_distributed_coord.Paxos.Leader.{
  handle_preparereq, handle_promise_prepare, handle_promise_accept, handle_accepted,
  handle_accepted_stopsign, handle_forwarded_proposal, handle_forwarded_stopsign, propose_stopsign,
}

-- `ReconfigurationRequest` and `ProposeErr` (omnipaxos_core/src/omni_paxos.rs)
pub record ReconfigurationRequest : Type 0 where
  pub new_configuration : List ℕ
  pub metadata : Option (List ℕ)

pub data ProposeErr (T : Type 0) : Type 0 where
  normal : T → ProposeErr T
  reconfiguration : List ℕ → ProposeErr T

-- `SequencePaxosConfig`, less the buffer size and the logger
pub record SequencePaxosConfig : Type 0 where
  pub configuration_id : ℕ
  pub pid : ℕ
  pub peers : List ℕ
  pub skip_prepare_use_leader : Option Ballot

unfoldable pub max_from : ℕ → List ℕ → ℕ
max_from m [] = m
max_from m (x ∷ xs) = max_from (if ltb m x then x else m) xs

-- `peers.iter().max().unwrap()`, then the maximum with the own pid
unfoldable pub max_pid_of : ℕ → List ℕ → Outcome ℕ
unfolding max_from
max_pid_of pid [] = panic
max_pid_of pid (x ∷ xs) = done (max_from pid (x ∷ xs))

-- The peers count as promised when this node is the pre-elected leader.
unfoldable pub promise_all : List (Option ℕ) → List ℕ → Outcome (List (Option ℕ))
promise_all v [] = done v
promise_all v (p ∷ ps) = do i ← sub_u64 p 1; v' ← set_index v i (some 0); promise_all v' ps

module _ {T S : Type 0} where
  unfoldable pub new_replica :
      SequencePaxosConfig
      → MemoryStorage T S
      → ℕ
      → Role
      → Phase
      → Ballot
      → Option (List (Option ℕ))
      → Paxos T S
  new_replica config storage max_pid role phase l lds = record {
    storage = set_promise storage l;
    config_id = config.configuration_id;
    pid = config.pid;
    peers = config.peers;
    role = role;
    phase = phase;
    leader = l;
    pending_proposals = [];
    pending_stopsign = none;
    outgoing = [];
    leader_state = leader_state_with l lds max_pid ((length config.peers + 1) / 2 + 1);
    latest_accepted_meta = none;
  }

  unfoldable pub with_leader :
      SequencePaxosConfig → MemoryStorage T S → ℕ → Option Ballot → Outcome (Paxos T S)
  unfolding new_replica promise_all
  with_leader config storage max_pid none =
      done (new_replica config storage max_pid Role.follower Phase.none default none)
  with_leader config storage max_pid (some l) =
      if l.pid == config.pid
      then (do
        v ← promise_all (replicate max_pid none) config.peers
        done (new_replica config storage max_pid Role.leader Phase.first_accept l (some v)))
      else done (new_replica config storage max_pid Role.follower Phase.first_accept l none)

  -- `SequencePaxos::with`
  unfoldable pub sequence_paxos_with : SequencePaxosConfig → MemoryStorage T S → Outcome (Paxos T S)
  unfolding max_pid_of with_leader
  sequence_paxos_with config storage = do
    max_pid ← max_pid_of config.pid config.peers
    with_leader config storage max_pid config.skip_prepare_use_leader

  -- A Promise is for a leader in its Prepare or its Accept phase.
  unfoldable pub handle_promise :
      ⦃snap : Snapshot T S⦄ → Role → Phase → Paxos T S → Promise T S → ℕ → Outcome (Paxos T S)
  handle_promise Role.leader Phase.prepare s prom from = handle_promise_prepare s prom from
  handle_promise Role.leader Phase.accept s prom from = handle_promise_accept s prom from
  handle_promise _ _ s prom from = done s

  unfoldable pub dispatch :
      ⦃snap : Snapshot T S⦄ → Paxos T S → ℕ → PaxosMsg T S → Outcome (Paxos T S)
  dispatch s from prepare_req = handle_preparereq s from
  dispatch s from (prepare prep) = handle_prepare s prep from
  dispatch s from (promise prom) = handle_promise s.role s.phase s prom from
  dispatch s from (accept_sync acc_sync) = handle_acceptsync s acc_sync from
  dispatch s from (first_accept f) = done (handle_firstaccept s f)
  dispatch s from (accept_decide acc) = handle_acceptdecide s acc
  dispatch s from (accepted acc) = handle_accepted s acc from
  dispatch s from (decide d) = done (handle_decide s d)
  dispatch s from (proposal_forward proposals) = handle_forwarded_proposal s proposals
  dispatch s from (compaction c) = handle_compaction s c
  dispatch s from (accept_stopsign acc_ss) = handle_accept_stopsign s acc_ss
  dispatch s from (accepted_stopsign acc_ss) = handle_accepted_stopsign s acc_ss from
  dispatch s from (decide_stopsign d_ss) = handle_decide_stopsign s d_ss
  dispatch s from (forward_stopsign f_ss) = handle_forwarded_stopsign s f_ss

  unfoldable pub handle : ⦃snap : Snapshot T S⦄ → Paxos T S → PaxosMessage T S → Outcome (Paxos T S)
  unfolding dispatch
  handle s m = dispatch s m.from m.msg

  unfoldable pub propose_entry : Role → Phase → Paxos T S → T → Outcome (Paxos T S)
  propose_entry Role.leader Phase.prepare s entry =
      done (record s { pending_proposals = s.pending_proposals ++ entry ∷ [] })
  propose_entry Role.leader Phase.accept s entry = send_accept s entry
  propose_entry Role.leader Phase.first_accept s entry = do
    s' ← send_first_accept s
    send_accept s' entry
  propose_entry _ _ s entry = done (forward_proposals s (entry ∷ []))

  unfoldable pub append : Paxos T S → T → Outcome (Paxos T S × Result Unit (ProposeErr T))
  unfolding propose_entry
  append s entry =
      if stopped s
      then done (s, err (normal entry))
      else (do s' ← propose_entry s.role s.phase s entry; done (s', ok tt))

  unfoldable pub reconfigure_pending :
      Paxos T S
      → ReconfigurationRequest
      → Option StopSign
      → Outcome (Paxos T S × Result Unit (ProposeErr T))
  reconfigure_pending s rc none = do
    c ← add_u32 s.config_id 1
    let ss = stopsign_with c rc.new_configuration rc.metadata
    done (record s { pending_stopsign = some ss }, ok tt)
  reconfigure_pending s rc (some _) = done (s, err (reconfiguration rc.new_configuration))

  -- In the Accept and FirstAccept phases the second test of `stopped` repeats the first.
  unfoldable pub reconfigure_in :
      Role
      → Phase
      → Paxos T S
      → ReconfigurationRequest
      → Outcome (Paxos T S × Result Unit (ProposeErr T))
  reconfigure_in Role.leader Phase.prepare s rc = reconfigure_pending s rc s.pending_stopsign
  reconfigure_in Role.leader Phase.accept s rc = do
    c ← add_u32 s.config_id 1
    s' ← propose_stopsign s (stopsign_with c rc.new_configuration rc.metadata)
    done (s', ok tt)
  reconfigure_in Role.leader Phase.first_accept s rc = do
    s1 ← send_first_accept s
    c ← add_u32 s1.config_id 1
    s2 ← propose_stopsign s1 (stopsign_with c rc.new_configuration rc.metadata)
    done (s2, ok tt)
  reconfigure_in _ _ s rc = do
    c ← add_u32 s.config_id 1
    done (forward_stopsign_to_leader s (stopsign_with c rc.new_configuration rc.metadata), ok tt)

  unfoldable pub reconfigure :
      Paxos T S → ReconfigurationRequest → Outcome (Paxos T S × Result Unit (ProposeErr T))
  unfolding reconfigure_in reconfigure_pending
  reconfigure s rc =
      if stopped s
      then done (s, err (reconfiguration rc.new_configuration))
      else reconfigure_in s.role s.phase s rc

  unfoldable pub reconnected : Paxos T S → ℕ → Paxos T S
  reconnected s pid =
      if pid == s.pid
      then s
      else send
          (if pid == s.leader.pid
            then record s { role = Role.follower; phase = Phase.recover }
            else s)
          pid prepare_req
