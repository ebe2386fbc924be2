-- ===== src/Paxos/Synchronizes.antt =====
-- omnipaxos_core/src/sequence_paxos/follower.rs, `handle_acceptsync` without a snapshot: the
-- follower's log becomes the leader's.
use ik2203_distributed_coord.Prelude.{
  ℕ, ◌+◌, ◌-◌, ◌≡◌, ◌≤◌, ◌<◌, refl, ap, true, none, List, arith, control, length, done, take, drop,
  take-append-drop, Returns, Returns-done, lt→ltb, le→leb, u64_mod,
}
use ik2203_distributed_coord.Storage.{Snapshot}
use ik2203_distributed_coord.Storage.Memory.{MemoryStorage}
use ik2203_distributed_coord.Storage.Memory as M
use ik2203_distributed_coord.Storage.Internal as I
use ik2203_distributed_coord.Storage.Internal.{set_decided_idx, set_accepted_round}
use ik2203_distributed_coord.Messages.{AcceptSync}
use ik2203_distributed_coord.Paxos.{Paxos, send, is_prepare}
use ik2203_distributed_coord.Paxos.Sending.{forward_proposals}
use ik2203_distributed_coord.Paxos.Follower.{
  following, sync_log, forward_pending_proposals, sync_stopsign, handle_acceptsync,
}

module _ {T S : Type 0} where
  forward_pending-storage : (s : Paxos T S) → (forward_pending_proposals s).storage ≡ s.storage
  unfolding forward_pending_proposals forward_proposals send control
  forward_pending-storage s = ground arith

  forward_pending-log : (s : Paxos T S) → (forward_pending_proposals s).storage.log ≡ s.storage.log
  forward_pending-log s = ap (λ (x : MemoryStorage T S). x.log) (forward_pending-storage s)

  forward_pending-acc_round :
      (s : Paxos T S) → (forward_pending_proposals s).storage.acc_round ≡ s.storage.acc_round
  forward_pending-acc_round s =
      ap (λ (x : MemoryStorage T S). x.acc_round) (forward_pending-storage s)

  -- The follower's log from the index on becomes what the leader's is.
  append_on_prefix-suffix :
      (st : MemoryStorage T S) (from : ℕ) (leader_log : List T)
      → st.trimmed_idx ≤ from
      → take (from - st.trimmed_idx) st.log ≡ take (from - st.trimmed_idx) leader_log
      → length leader_log + st.trimmed_idx < u64_mod
      → I.append_on_prefix st from (drop (from - st.trimmed_idx) leader_log)
        ≡ done (record st { log = leader_log }, length leader_log + st.trimmed_idx)
  unfolding I.append_on_prefix M.append_on_prefix M.append_entries control
  append_on_prefix-suffix st from leader_log h e k =
      rw (le→leb _ _ h, e, take-append-drop (from - st.trimmed_idx) leader_log, lt→ltb _ _ k)

  -- A follower in its Prepare phase that handles the AcceptSync of its round, without a snapshot or a
  -- StopSign, and whose log agrees with the leader's up to the index from which the leader sends its
  -- log, does not panic; it then has the leader's log, the decided index of the message and the round
  -- as the accepted one. Both have compacted up to the same index.
  pub handle_acceptsync-log :
      ⦃snap : Snapshot T S⦄ (s : Paxos T S) (accsync : AcceptSync T S) (from : ℕ)
      (leader_log : List T)
      → following s accsync.n is_prepare ≡ true
      → accsync.decided_snapshot ≡ none
      → accsync.stopsign ≡ none
      → s.storage.trimmed_idx ≤ accsync.sync_idx
      → accsync.suffix ≡ drop (accsync.sync_idx - s.storage.trimmed_idx) leader_log
      → take (accsync.sync_idx - s.storage.trimmed_idx) s.storage.log
        ≡ take (accsync.sync_idx - s.storage.trimmed_idx) leader_log
      → length leader_log + s.storage.trimmed_idx < u64_mod
      → Returns
          (λ t.
            (t.storage.log ≡ leader_log)
            × (t.storage.ld ≡ accsync.decided_idx)
            × (t.storage.acc_round ≡ accsync.n))
          (handle_acceptsync s accsync from)
  unfolding handle_acceptsync sync_log sync_stopsign send control
  handle_acceptsync-log s accsync from leader_log f d ss h x e k =
      rw (f, d, ss, x, append_on_prefix-suffix s.storage accsync.sync_idx leader_log h e k)
        (Returns-done (forward_pending-log _, refl, forward_pending-acc_round _))
