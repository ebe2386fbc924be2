-- ===== src/Paxos/Proposes.antt =====
-- omnipaxos_core/src/sequence_paxos/mod.rs, `append`, and leader.rs, `send_accept`: a proposal to a
-- leader in its Accept phase.
mod Examples
use ik2203_distributed_coord.Prelude.{
  ℕ, ◌≡◌, ◌<◌, ◌+◌, ◌-◌, refl, ap, false, List, [], ◌∷◌, ◌++◌, length, length-append, arith,
  control, if◌then◌else◌, done, Returns, Returns-done, Returns-bind, lt→ltb, le→leb, All, u64_mod,
  sub_u64-runs,
}
use ik2203_distributed_coord.Storage.{ok, Result}
use ik2203_distributed_coord.Storage.Memory as M
use ik2203_distributed_coord.Storage.Memory.{MemoryStorage}
use ik2203_distributed_coord.Storage.Internal.{append_entry}
use ik2203_distributed_coord.LeaderState.{
  LeaderState, pid_to_idx, set_accepted_idx, get_promised_followers,
}
use ik2203_distributed_coord.Paxos.{Paxos, Role, Phase, stopped}
use ik2203_distributed_coord.Paxos.Sending.{send_accept}
use ik2203_distributed_coord.Paxos.Handle.{append, propose_entry}
use ik2203_distributed_coord.Paxos.Rounds.{IsSound}
use ik2203_distributed_coord.Paxos.Gives.{Gives}
use ik2203_distributed_coord.Paxos.Batches.{HasPlace, batch_all-Stepped}

pid_to_idx-place : (k pid : ℕ) → HasPlace k pid → (i : ℕ) × (pid_to_idx pid ≡ done i) × (i < k)
unfolding pid_to_idx
pid_to_idx-place k pid h = (pid - 1, sub_u64-runs pid 1 h.first, omega (arith, h.first, h.last))

module _ {T S : Type 0} where
  -- A sound leader in its Accept phase that has not accepted a StopSign, its log short of 2^64 and
  -- itself and its promised followers within the tables by pid, takes a proposal without a panic:
  -- the entry is put behind its log, and to each promised follower an AcceptDecide of its round
  -- that ends with the entry is to be sent.
  pub append-proposes :
      (s : Paxos T S) (e : T) (pids : List ℕ)
      → IsSound s
      → s.role ≡ Role.leader
      → s.phase ≡ Phase.accept
      → stopped s ≡ false
      → get_promised_followers s.leader_state ≡ done pids
      → HasPlace (length s.leader_state.accepted_indexes) s.pid
      → All (HasPlace (length s.leader_state.batch_accept_meta)) pids
      → length s.storage.log + 1 + s.storage.trimmed_idx < u64_mod
      → Returns
          (λ r.
            (r.1 ≡ ok tt)
            × (r.0.storage.log ≡ s.storage.log ++ e ∷ [])
            × All (Gives (e ∷ []) s.leader_state.n_leader r.0.outgoing) pids)
          (append s e)
  unfolding append propose_entry send_accept append_entry M.append_entry set_accepted_idx
      get_promised_followers control
  append-proposes s e pids sound lead phase stop promised own places room =
      let (i, q, l) = pid_to_idx-place _ s.pid own in
      rw
        (
          stop,
          lead,
          phase,
          length-append s.storage.log (e ∷ []),
          lt→ltb _ _ room,
          q,
          lt→ltb _ _ l,
          promised,
        )
        (Returns-bind (batch_all-Stepped (e ∷ []) _ pids sound.batches places) λ t (st, given).
          Returns-done (refl, ap (λ (x : MemoryStorage T S). x.log) st.storage, given))
