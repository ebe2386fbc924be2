-- ===== src/Omni/Runs.antt =====
-- omnipaxos_core/src/omni_paxos.rs: what the calls of `OmniPaxos` do to its replica.
use ik2203_distributed_coord.Prelude.{
  ◌≡◌, refl, Option, none, some, done, Ensures, Ensures-done, Ensures-bind, Ensures-bind_any,
  >>=-eq-done, ◌∙◌, sym, ap, ◌⊎◌, inl, inr,
}
use ik2203_distributed_coord.Ballot.{Ballot}
use ik2203_distributed_coord.Paxos.Rounds.{Advance, Advance-refl}
use ik2203_distributed_coord.Paxos.Rounds.Leaders.{handle_leader-Advance}
use ik2203_distributed_coord.Paxos.Leader.{handle_leader}
use ik2203_distributed_coord.Ble.{BallotLeaderElection, hb_timeout}
use ik2203_distributed_coord.Ble.Election.{IsElected, hb_timeout-IsElected}
use ik2203_distributed_coord.Omni.{OmniPaxos, lead_if, election_timeout}

module _ {T S : Type 0} where
  -- What an election timeout does, by whether a leader is elected.
  unfoldable pub TimesOut : OmniPaxos T S → OmniPaxos T S → Type 0
  TimesOut o t =
      ((hb_timeout o.ble ≡ done (t.ble, none)) × (t.seq_paxos ≡ o.seq_paxos))
      ⊎ ((l : Ballot) × (hb_timeout o.ble ≡ done (t.ble, some l))
          × IsElected o.ble l
          × (t.ble.leader ≡ some l)
          × (handle_leader o.seq_paxos l ≡ done t.seq_paxos))

  -- An election timeout that returns is a timeout of the election: either no leader is elected,
  -- and the replica is as before, or a ballot is, which is greatest among those heard and is
  -- recorded as the leader, and the replica after it is what `handle_leader` makes of the replica
  -- and this ballot.
  pub election_timeout-leads : (o t : OmniPaxos T S) → election_timeout o ≡ done t → TimesOut o t
  unfolding election_timeout lead_if TimesOut
  election_timeout-leads o t h =
      let (r, e, k) = >>=-eq-done (hb_timeout o.ble) _ h in leads r e r.1 refl k
    where
      leads :
          (r : BallotLeaderElection × Option Ballot)
          → hb_timeout o.ble ≡ done r
          → (x : Option Ballot) → r.1 ≡ x
          → lead_if (record o { ble = r.0 }) x ≡ done t
          → TimesOut o t
      leads r e none q k =
          let z : record o { ble = r.0 } ≡ t = cc k in
          let e' = e ∙ ap (λ x. done (r.0, x)) q in
          inl (
            e' ∙ ap (λ (x : OmniPaxos T S). done (x.ble, none)) z,
            ap (λ (x : OmniPaxos T S). x.seq_paxos) (sym z),
          )
      leads r e (some l) q k =
          let (s, e2, k') = >>=-eq-done (handle_leader o.seq_paxos l) _ k in
          let z : record o { seq_paxos = s; ble = r.0 } ≡ t = cc k' in
          let e' = e ∙ ap (λ x. done (r.0, x)) q in
          let (elected, led) = hb_timeout-IsElected o.ble r.0 l e' in
          inr (
            l,
            e' ∙ ap (λ (x : OmniPaxos T S). done (x.ble, some l)) z,
            elected,
            rw (← z) led,
            rw (← z) e2,
          )

  -- An election timeout that returns does not lower the promised round and keeps the replica sound.
  election_timeout-Advance :
      (o : OmniPaxos T S)
      → Ensures (λ t. Advance (λ n q. ⊥) o.seq_paxos t.seq_paxos) (election_timeout o)
  unfolding election_timeout lead_if
  election_timeout-Advance o =
      Ensures-bind_any _ λ r e. lead_if-Advance (record o { ble = r.0 }) r.1
    where
      lead_if-Advance :
          (o : OmniPaxos T S) (x : Option Ballot)
          → Ensures (λ t. Advance (λ n q. ⊥) o.seq_paxos t.seq_paxos) (lead_if o x)
      lead_if-Advance o none = Ensures-done (Advance-refl _)
      lead_if-Advance o (some l) =
          Ensures-bind (handle_leader-Advance o.seq_paxos l) λ s h. Ensures-done h
