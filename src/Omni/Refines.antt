-- ===== src/Omni/Refines.antt =====
-- omnipaxos_core/src/omni_paxos.rs: what is called on an `OmniPaxos` is a run of its replica.
use ik2203_distributed_coord.Prelude.{
  ℕ, ◌≡◌, ◌++◌, map, sym, ap, ◌∙◌, inl, inr, Bool, Option, Outcome, done, ◌>>=◌, >>=-eq-done,
}
use ik2203_distributed_coord.Storage.{Snapshot, Result, CompactionErr}
use ik2203_distributed_coord.Messages.{Message, sequence_paxos, ble}
use ik2203_distributed_coord.Paxos.{Paxos}
use ik2203_distributed_coord.Paxos.Handle.{ProposeErr, ReconfigurationRequest}
use ik2203_distributed_coord.Paxos.Handle
use ik2203_distributed_coord.Paxos.Reach.{
  Reach, here, next, Step, receive, elected, propose, propose_config, reconnect, recover, trims,
  snapshots, fetch,
}
use ik2203_distributed_coord.Omni.{
  OmniPaxos, election_timeout, handle_incoming, append, reconfigure, reconnected, fail_recovery,
  trim, snapshot, outgoing_messages, set_priority,
}
use ik2203_distributed_coord.Omni.Runs.{TimesOut, election_timeout-leads}
use ik2203_distributed_coord.Paxos as Replica
use ik2203_distributed_coord.Ble

done_inj : {A : Type 0} {a b : A} → done a ≡ done b → a ≡ b
done_inj h = cc

module _ {T S : Type 0} ⦃snap : Snapshot T S⦄ where
  -- One call on an `OmniPaxos` that does not panic.
  pub data OmniStep (o : OmniPaxos T S) : OmniPaxos T S → Type 0 where
    times_out : {t : OmniPaxos T S} → election_timeout o ≡ done t → OmniStep o t
    receives : {t : OmniPaxos T S} (m : Message T S) → handle_incoming o m ≡ done t → OmniStep o t
    appends :
        {t : OmniPaxos T S} {r : Result Unit (ProposeErr T)} (e : T)
        → append o e ≡ done (t, r)
        → OmniStep o t
    reconfigures :
        {t : OmniPaxos T S} {r : Result Unit (ProposeErr T)} (rc : ReconfigurationRequest)
        → reconfigure o rc ≡ done (t, r)
        → OmniStep o t
    reconnects : (pid : ℕ) → OmniStep o (reconnected o pid)
    recovers : OmniStep o (fail_recovery o)
    trims_to :
        {t : OmniPaxos T S} {r : Result Unit CompactionErr} (i : Option ℕ)
        → trim o i ≡ done (t, r)
        → OmniStep o t
    takes_snapshot :
        {t : OmniPaxos T S} {r : Result Unit CompactionErr} (i : Option ℕ) (local_only : Bool)
        → snapshot o i local_only ≡ done (t, r)
        → OmniStep o t
    fetches : OmniStep o (outgoing_messages o).0
    sets_priority : (p : ℕ) → OmniStep o (set_priority o p)

  one : {s t : Paxos T S} → Step s t → Reach s t
  one st = next here st

  -- A call that passes the replica's result on has it.
  passed_on :
      {A : Type 0} (o t : OmniPaxos T S) (m : Outcome (Paxos T S × A)) (r : A)
      → ◌>>=◌ {B = OmniPaxos T S × A} m (λ x. done (record o { seq_paxos = x.0 }, x.1))
        ≡ done (t, r)
      → m ≡ done (t.seq_paxos, r)
  passed_on {A} o t m r h =
      let (x, e, k) = >>=-eq-done m _ h in
      e ∙ ap (λ (y : OmniPaxos T S × A). done (y.0.seq_paxos, y.1)) (done_inj k)

  -- Every call on an `OmniPaxos` that returns is a run of its replica.
  pub OmniStep-Reach : {o t : OmniPaxos T S} → OmniStep o t → Reach o.seq_paxos t.seq_paxos
  unfolding handle_incoming append reconfigure reconnected fail_recovery trim snapshot
      outgoing_messages set_priority TimesOut
  OmniStep-Reach {o} {t} (times_out e) = elim (election_timeout-leads o t e) [
    | inl (_, q) ↦ rw q here
    | inr (l, _, _, _, h) ↦ one (elected l h)
  ]
  OmniStep-Reach {o} {t} (receives (sequence_paxos p) e) =
      let (s, h, k) = >>=-eq-done (Handle.handle o.seq_paxos p) _ e in
      one (receive p (h ∙ ap (λ (y : OmniPaxos T S). done (y.seq_paxos)) (done_inj k)))
  OmniStep-Reach {o} {t} (receives (ble b) e) =
      rw (sym (ap (λ (y : OmniPaxos T S). y.seq_paxos) (done_inj e))) here
  OmniStep-Reach {o} {t} (appends {r} x e) = one (propose x (passed_on o t _ r e))
  OmniStep-Reach {o} {t} (reconfigures {r} rc e) = one (propose_config rc (passed_on o t _ r e))
  OmniStep-Reach (reconnects pid) = one (reconnect pid)
  OmniStep-Reach recovers = one recover
  OmniStep-Reach {o} {t} (trims_to {r} i e) = one (trims i (passed_on o t _ r e))
  OmniStep-Reach {o} {t} (takes_snapshot {r} i local_only e) =
      one (snapshots i local_only (passed_on o t _ r e))
  OmniStep-Reach fetches = one fetch
  OmniStep-Reach (sets_priority p) = here

  -- What a call does to the replica and to the election.
  unfoldable pub Acts : {o t : OmniPaxos T S} → OmniStep o t → Type 0
  Acts {o} {t} (times_out e) = TimesOut o t
  Acts {o} {t} (receives (sequence_paxos p) e) =
      (Handle.handle o.seq_paxos p ≡ done t.seq_paxos) × (t.ble ≡ o.ble)
  Acts {o} {t} (receives (ble b) e) = (t.seq_paxos ≡ o.seq_paxos) × (t.ble ≡ Ble.handle o.ble b)
  Acts {o} {t} (appends {r} x e) =
      (Handle.append o.seq_paxos x ≡ done (t.seq_paxos, r)) × (t.ble ≡ o.ble)
  Acts {o} {t} (reconfigures {r} rc e) =
      (Handle.reconfigure o.seq_paxos rc ≡ done (t.seq_paxos, r)) × (t.ble ≡ o.ble)
  Acts {o} {t} (reconnects pid) =
      (t.seq_paxos ≡ Handle.reconnected o.seq_paxos pid) × (t.ble ≡ o.ble)
  Acts {o} {t} recovers = (t.seq_paxos ≡ Replica.fail_recovery o.seq_paxos) × (t.ble ≡ o.ble)
  Acts {o} {t} (trims_to {r} i e) =
      (Replica.trim o.seq_paxos i ≡ done (t.seq_paxos, r)) × (t.ble ≡ o.ble)
  Acts {o} {t} (takes_snapshot {r} i local_only e) =
      (Replica.snapshot o.seq_paxos i local_only ≡ done (t.seq_paxos, r)) × (t.ble ≡ o.ble)
  Acts {o} {t} fetches =
      (t.seq_paxos ≡ (Replica.get_outgoing_msgs o.seq_paxos).0)
      × (t.ble ≡ (Ble.get_outgoing_msgs o.ble).0)
      × ((outgoing_messages o).1
          ≡ map ble (Ble.get_outgoing_msgs o.ble).1
            ++ map sequence_paxos (Replica.get_outgoing_msgs o.seq_paxos).1)
  Acts {o} {t} (sets_priority p) = (t.seq_paxos ≡ o.seq_paxos) × (t.ble ≡ Ble.set_priority o.ble p)
