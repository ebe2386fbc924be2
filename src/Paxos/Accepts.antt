-- ===== src/Paxos/Accepts.antt =====
-- omnipaxos_core/src/sequence_paxos/follower.rs: an AcceptDecide of the current round is accepted,
-- and answered in the cached Accepted message or in a new one.
use ik2203_distributed_coord.Prelude.{
  ℕ, zero, suc, ◌+◌, ◌≡◌, ◌<◌, refl, ap, ◌∙◌, true, false≢true, Option, none, some, List, [], ◌∷◌,
  ◌++◌, control, if◌then◌else◌, length, length-append, get_elem?, set, done, Returns, Returns-done,
  Returns-bind, Bool-cases, inl, inr, ltb, lt→ltb, u64_mod,
}
use ik2203_distributed_coord.Ballot.{Ballot, eq_ballot}
use ik2203_distributed_coord.Storage.Memory.{MemoryStorage}
use ik2203_distributed_coord.Storage.Memory as M
use ik2203_distributed_coord.Storage.Internal.{append_entries, set_decided_idx}
use ik2203_distributed_coord.Messages.{PaxosMsg, PaxosMessage, AcceptDecide, Accepted, accepted}
use ik2203_distributed_coord.Paxos.{Paxos, send, is_accept}
use ik2203_distributed_coord.Paxos.Frame.{accepted_at, is_accepted}
use ik2203_distributed_coord.Paxos.Rounds.{IsSound}
use ik2203_distributed_coord.Paxos.Follower.{
  following, accept_entries, reply_accepted, update_accepted, push_accepted, handle_acceptdecide,
}

module _ {T S : Type 0} where
  -- How the Accepted message of round `n` with this index gets to what `s` has to send: behind it, to
  -- the leader, or, where an Accepted message of round `n` is cached, in its index alone.
  pub data Replies (s t : Paxos T S) (n : Ballot) (idx : ℕ) : Type 0 where
    pushed :
        t.outgoing
          ≡ s.outgoing
            ++ (record {
              from = s.pid;
              to = s.leader.pid;
              msg = accepted (record { n = n; accepted_idx = idx });
            })
              ∷ []
        → Replies s t n idx
    updated :
        (round : Ballot) (i : ℕ) (m : PaxosMessage T S) (a : Accepted)
        → s.latest_accepted_meta ≡ some (round, i)
        → eq_ballot round n ≡ true
        → get_elem? s.outgoing i ≡ some m
        → m.msg ≡ accepted a
        → t.outgoing
          ≡ set s.outgoing i (record m { msg = accepted (record a { accepted_idx = idx }) })
        → Replies s t n idx

  is_accepted-message :
      (x : PaxosMsg T S) → is_accepted x ≡ true → (a : Accepted) × (x ≡ accepted a)
  is_accepted-message (accepted a) h = (a, refl)
  is_accepted-message _ h = absurd (false≢true h)

  Replies-same :
      (s t u : Paxos T S) {n : Ballot} {idx : ℕ}
      → u.outgoing ≡ t.outgoing
      → Replies s t n idx
      → Replies s u n idx
  Replies-same s t u e (pushed h) = pushed (e ∙ h)
  Replies-same s t u e (updated round i m a c r g q h) = updated round i m a c r g q (e ∙ h)

  -- The storage of the state before does not matter.
  Replies-stored :
      (s : Paxos T S) (st : MemoryStorage T S) (t : Paxos T S) {n : Ballot} {idx : ℕ}
      → Replies (record s { storage = st }) t n idx
      → Replies s t n idx
  Replies-stored s st t (pushed h) = pushed h
  Replies-stored s st t (updated round i m a c r g q h) = updated round i m a c r g q h

  accepted_at-message :
      (xs : List (PaxosMessage T S)) (i : ℕ)
      → accepted_at xs i ≡ true
      → (m : PaxosMessage T S) × (a : Accepted) × (get_elem? xs i ≡ some m) × (m.msg ≡ accepted a)
  unfolding accepted_at
  accepted_at-message [] i h = cc
  accepted_at-message (m ∷ xs) zero h = let (a, e) = is_accepted-message m.msg h in (m, a, refl, e)
  accepted_at-message (m ∷ xs) (suc i) h = accepted_at-message xs i h

  push_accepted-Replies :
      (s : Paxos T S) (n : Ballot) (idx : ℕ)
      → Returns (λ t. (t.storage ≡ s.storage) × Replies s t n idx) (done (push_accepted s n idx))
  unfolding push_accepted send
  push_accepted-Replies s n idx = Returns-done (refl, pushed refl)

  reply_accepted-Replies :
      (s : Paxos T S) (n : Ballot) (idx : ℕ) (o : Option (Ballot × ℕ))
      → s.latest_accepted_meta ≡ o
      → ((r : Ballot) (i : ℕ) → o ≡ some (r, i) → accepted_at s.outgoing i ≡ true)
      → Returns (λ t. (t.storage ≡ s.storage) × Replies s t n idx) (reply_accepted s n idx o)
  unfolding reply_accepted update_accepted control
  reply_accepted-Replies s n idx none c h = push_accepted-Replies s n idx
  reply_accepted-Replies s n idx (some (round, i)) c h = elim (Bool-cases (eq_ballot round n)) [
    | inr e ↦ rw e (push_accepted-Replies s n idx)
    | inl e ↦
        let (m, a, g, q) = accepted_at-message s.outgoing i (h round i refl) in
        rw (e, g, q) (Returns-done (refl, updated round i m a c e g q refl))
  ]

  accept_entries-Replies :
      (s : Paxos T S) (n : Ballot) (entries : List T)
      → IsSound s
      → length s.storage.log + length entries + s.storage.trimmed_idx < u64_mod
      → Returns
          (λ t.
            (t.storage ≡ (record (s.storage) { log = s.storage.log ++ entries }))
            × Replies s t n (length s.storage.log + length entries + s.storage.trimmed_idx))
          (accept_entries s n entries)
  unfolding accept_entries append_entries M.append_entries control
  accept_entries-Replies s n entries h k =
      rw (length-append s.storage.log entries, lt→ltb _ _ k)
        (let r =
            reply_accepted-Replies
              (record s { storage = record (s.storage) { log = s.storage.log ++ entries } }) n _
              s.latest_accepted_meta refl h.cache in
          record {
            value = r.value;
            runs = r.runs;
            meets = (r.meets.0, Replies-stored s _ r.value r.meets.1);
          })

  decided_after :
      (s t : Paxos T S) (entries : List T) {n : Ballot} {idx : ℕ} (d : ℕ)
      → t.storage.log ≡ s.storage.log ++ entries
      → t.storage.ld ≡ s.storage.ld
      → Replies s t n idx
      → Returns
          (λ t.
            (t.storage.log ≡ s.storage.log ++ entries)
            × (t.storage.ld ≡ (if ltb s.storage.ld d then d else s.storage.ld))
            × Replies s t n idx)
          (done
            (if ltb t.storage.ld d then record t { storage = set_decided_idx t.storage d } else t))
  unfolding control
  decided_after s t entries d log ld r = elim (Bool-cases (ltb s.storage.ld d)) [
    | inl e ↦ rw (ld, e) (Returns-done (log, refl, Replies-same s t _ refl r))
    | inr e ↦ rw (ap (λ x. ltb x d) ld, e) (Returns-done (log, ld, r))
  ]

  -- A sound follower in its Accept phase that gets an AcceptDecide of its round, which its log has
  -- room for, handles it without a panic: the entries are put behind its log, and the decided
  -- index becomes the message's if that is greater. An Accepted message with the new length of the
  -- log is to be sent: a new one of the round and to the leader behind what was to be sent, or,
  -- where the follower holds an Accepted message of the round as the latest, that one with its
  -- index replaced.
  pub handle_acceptdecide-accepts :
      (s : Paxos T S) (acc : AcceptDecide T)
      → IsSound s
      → following s acc.n is_accept ≡ true
      → length s.storage.log + length acc.entries + s.storage.trimmed_idx < u64_mod
      → Returns
          (λ t.
            (t.storage.log ≡ s.storage.log ++ acc.entries)
            × (t.storage.ld
                ≡ (if ltb s.storage.ld acc.decided_idx then acc.decided_idx else s.storage.ld))
            × Replies s t acc.n (length s.storage.log + length acc.entries + s.storage.trimmed_idx))
          (handle_acceptdecide s acc)
  unfolding handle_acceptdecide control
  handle_acceptdecide-accepts s acc h f k = rw f (
      Returns-bind (accept_entries-Replies s acc.n acc.entries h k) λ t (st, r).
        let log = ap (λ (x : MemoryStorage T S). x.log) st in
        let ld = ap (λ (x : MemoryStorage T S). x.ld) st in
        decided_after s t acc.entries acc.decided_idx log ld r)
