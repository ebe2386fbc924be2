-- ===== src/Paxos/Stale.antt =====
-- omnipaxos_core/src/sequence_paxos/follower.rs: what a message of another round, and an accepted
-- one, does to a follower.
use ik2203_distributed_coord.Prelude.{ℕ, ◌≡◌, refl, true, false, control, done}
use ik2203_distributed_coord.Ballot.{eq_ballot, le_ballot}
use ik2203_distributed_coord.Storage.{Snapshot, err}
use ik2203_distributed_coord.Messages.{
  PaxosMsg, Promise, prepare, promise, accept_sync, first_accept, accept_decide, accepted, decide,
  accept_stopsign, accepted_stopsign, decide_stopsign,
}
use ik2203_distributed_coord.Paxos.{Paxos, Role, Phase, stopped}
use ik2203_distributed_coord.Paxos.Follower.{
  handle_prepare, handle_acceptsync, handle_firstaccept, handle_acceptdecide,
  handle_accept_stopsign, handle_decide, handle_decide_stopsign,
}
use ik2203_distributed_coord.Paxos.Leader.{
  handle_promise_prepare, handle_promise_accept, handle_accepted, handle_accepted_stopsign,
}
use ik2203_distributed_coord.Paxos.Handle.{
  dispatch, handle_promise, append, reconfigure, ReconfigurationRequest, normal, reconfiguration,
}

module _ {T S : Type 0} where
  -- The message is of a round that the replica is not in: a Prepare below the promised round, a
  -- message to followers of another round than the promised one, or an answer to a leader of another
  -- round than the one it leads.
  unfoldable pub IsStale : Paxos T S → PaxosMsg T S → Type 0
  IsStale s (prepare p) = le_ballot s.storage.n_prom p.n ≡ false
  IsStale s (accept_sync a) = eq_ballot s.storage.n_prom a.n ≡ false
  IsStale s (first_accept f) = eq_ballot s.storage.n_prom f.n ≡ false
  IsStale s (accept_decide a) = eq_ballot s.storage.n_prom a.n ≡ false
  IsStale s (decide d) = eq_ballot s.storage.n_prom d.n ≡ false
  IsStale s (accept_stopsign a) = eq_ballot s.storage.n_prom a.n ≡ false
  IsStale s (decide_stopsign d) = eq_ballot s.storage.n_prom d.n ≡ false
  IsStale s (promise p) = eq_ballot p.n s.leader_state.n_leader ≡ false
  IsStale s (accepted a) = eq_ballot a.n s.leader_state.n_leader ≡ false
  IsStale s (accepted_stopsign a) = eq_ballot a.n s.leader_state.n_leader ≡ false
  IsStale s _ = ⊥

  handle_promise-stale :
      ⦃snap : Snapshot T S⦄ (r : Role) (p : Phase) (s : Paxos T S) (m : Promise T S) (from : ℕ)
      → eq_ballot m.n s.leader_state.n_leader ≡ false
      → handle_promise r p s m from ≡ done s
  unfolding handle_promise handle_promise_prepare handle_promise_accept control
  handle_promise-stale Role.leader Phase.prepare s m from h = rw h
  handle_promise-stale Role.leader Phase.accept s m from h = rw h
  handle_promise-stale _ _ s m from h = refl

  -- A stale message changes nothing and is not answered.
  pub dispatch-stale :
      ⦃snap : Snapshot T S⦄ (s : Paxos T S) (from : ℕ) (m : PaxosMsg T S)
      → IsStale s m
      → dispatch s from m ≡ done s
  unfolding IsStale dispatch handle_prepare handle_acceptsync handle_firstaccept handle_acceptdecide
      handle_accept_stopsign handle_decide handle_decide_stopsign handle_accepted
      handle_accepted_stopsign control
  dispatch-stale s from (prepare p) h = rw h
  dispatch-stale s from (accept_sync a) h = rw h
  dispatch-stale s from (first_accept f) h = rw h
  dispatch-stale s from (accept_decide a) h = rw h
  dispatch-stale s from (decide d) h = rw h
  dispatch-stale s from (accept_stopsign a) h = rw h
  dispatch-stale s from (decide_stopsign d) h = rw h
  dispatch-stale s from (promise p) h = handle_promise-stale s.role s.phase s p from h
  dispatch-stale s from (accepted a) h = rw h
  dispatch-stale s from (accepted_stopsign a) h = rw h
  dispatch-stale s from _ h = absurd h

  -- A replica that has accepted a StopSign refuses entries and reconfigurations, hands them back and
  -- does not change.
  stopped-refuses :
      (s : Paxos T S) (entry : T) (rc : ReconfigurationRequest)
      → stopped s ≡ true
      → (append s entry ≡ done (s, err (normal entry)))
        × (reconfigure s rc ≡ done (s, err (reconfiguration rc.new_configuration)))
  unfolding append reconfigure control
  stopped-refuses s entry rc h = (rw h, rw h)
