-- ===== src/Paxos/Frame/Batching.antt =====
-- Sending entries and decisions, by a new message or in the cached one, satisfies `Sent`.
use ik2203_distributed_coord.Prelude.{
  ℕ, ◌≡◌, refl, false, Option, none, some, List, [], ◌∷◌, get_elem?, Ensures, Ensures-done,
  Ensures-bind, Ensures-bind_any, Ensures-if, Ensures-weaken, index-eq-done, Ensures-and, length,
  suc, ◌-◌, ◌++◌, sym, arith, length-append, ap, set, ◌∙◌, All-push, All-set, All-get,
}
use ik2203_distributed_coord.Ballot.{Ballot}
use ik2203_distributed_coord.Storage.Frame.{
  SameRounds, append_entry-SameRounds, append_entries-SameRounds,
}
use ik2203_distributed_coord.Messages.{PaxosMsg, PaxosMessage, accept_decide, Decide, AcceptDecide}
use ik2203_distributed_coord.Storage.Memory.{MemoryStorage}
use ik2203_distributed_coord.LeaderState.{LeaderState}
use ik2203_distributed_coord.Paxos.Cached.{IsAcceptDecide, Points-set, IsCached-pushed}
use ik2203_distributed_coord.LeaderState.Frame.{
  set_batch_accept_meta-batch, SameLeader, set_batch_accept_meta-SameVotes,
  set_accepted_idx-SameLeader, SameVotes-refl,
}
use ik2203_distributed_coord.Paxos.{Paxos, send}
use ik2203_distributed_coord.Paxos.Sending.{
  send_accept_and_cache, extend_cached, batch_at, batch_all, send_accept, send_batch_accept,
}
use ik2203_distributed_coord.Paxos.Leader.{decide_cached, decide_at, decide_all}
use ik2203_distributed_coord.Paxos.Frame.Sends.{send-Sent}
use ik2203_distributed_coord.Paxos.Frame.{
  accepted_at-append, accepted_at-set, Sent, Sent-refl, Sent-trans, Sent-local, is_accepted, Claims,
}

module _ {T S : Type 0} where
  last_index :
      (xs : List (PaxosMessage T S)) (m : PaxosMessage T S) → length (xs ++ m ∷ []) - 1 ≡ length xs
  last_index xs m = omega (arith, length-append xs (m ∷ []))

  send_accept_and_cache-Sent :
      (s : Paxos T S) (to : ℕ) (es : List T) → Ensures (Sent s) (send_accept_and_cache s to es)
  unfolding send_accept_and_cache send
  send_accept_and_cache-Sent s to es =
      Ensures-bind
        (Ensures-and (set_batch_accept_meta-SameVotes s.leader_state to _)
          (set_batch_accept_meta-batch s.leader_state to _))
        λ ls (h, c). Ensures-done (record {
          n_prom = refl;
          acc_round = refl;
          ld = refl;
          votes = h;
          role = refl;
          phase = λ e. e;
          cached = refl;
          batches = λ x.
              rw (c.2, last_index s.outgoing _)
                (IsCached-pushed s.outgoing s.leader_state.batch_accept_meta c.0 _ _
                  (record { to_eq = sym c.1; acc = _; msg_eq = refl; n_eq = refl }) x);
          pid = refl;
          keeps = accepted_at-append s.outgoing _;
          talks = λ a. All-push a (record { from = refl; claim = tt });
        })

  -- A message that takes the place of an AcceptDecide keeps its receiver and its round.
  same_decide :
      (m : PaxosMessage T S) (a : AcceptDecide T)
      → m.msg ≡ accept_decide a
      → (m' : PaxosMessage T S) {a' : AcceptDecide T} → m'.msg ≡ accept_decide a'
      → m'.to ≡ m.to
      → a'.n ≡ a.n
      → (to : ℕ) (n : Ballot) → IsAcceptDecide to n m
      → IsAcceptDecide to n m'
  same_decide m a e m' {a'} e' t q to n d = record {
    to_eq = t ∙ d.to_eq;
    acc = a';
    msg_eq = e';
    n_eq = ground (arith, d.n_eq, q, d.msg_eq, e);
  }

  overwritten :
      (s : Paxos T S) (i : ℕ) (m m' : PaxosMessage T S)
      → get_elem? s.outgoing i ≡ some m
      → is_accepted m.msg ≡ false
      → m'.from ≡ m.from
      → Claims s.storage.n_prom m'.msg
      → ((to : ℕ) (n : Ballot) → IsAcceptDecide to n m → IsAcceptDecide to n m')
      → Sent s (record s { outgoing = set s.outgoing i m' })
  overwritten s i m m' g k f c d = record {
    n_prom = refl;
    acc_round = refl;
    ld = refl;
    votes = SameVotes-refl _;
    role = refl;
    phase = λ e. e;
    cached = refl;
    batches = λ h. record {
      at = λ j n i' x. Points-set s.outgoing i m m' g d (suc j) n i' (h.at j n i' x);
    };
    pid = refl;
    keeps = λ j h. accepted_at-set s.outgoing i m m' j g k h;
    talks = λ a. All-set i a (record { from = f ∙ (All-get i a g).from; claim = c });
  }

  -- An AcceptDecide is overwritten, or a message is pushed.
  extend_cached-Sent :
      (s : Paxos T S) (to : ℕ) (es : List T) (i : ℕ) (m : PaxosMessage T S) (msg : PaxosMsg T S)
      → get_elem? s.outgoing i ≡ some m
      → m.msg ≡ msg
      → Ensures (Sent s) (extend_cached s to es i m msg)
  unfolding extend_cached
  extend_cached-Sent s to es i m (accept_decide a) g e =
      Ensures-done
        (overwritten s i m _ g (ap is_accepted e) refl tt (same_decide m a e _ refl refl refl))
  extend_cached-Sent s to es i m _ g e = send_accept_and_cache-Sent s to es

  pub batch_at-Sent :
      (s : Paxos T S) (to : ℕ) (es : List T) (o : Option (Ballot × ℕ))
      → Ensures (Sent s) (batch_at s to es o)
  unfolding batch_at
  batch_at-Sent s to es none = send_accept_and_cache-Sent s to es
  batch_at-Sent s to es (some (n, i)) =
      Ensures-if _
        (λ e.
          Ensures-bind_any _
            λ m g. extend_cached-Sent s to es i m m.msg (index-eq-done s.outgoing i g) refl)
        (λ e. send_accept_and_cache-Sent s to es)

  batch_all-Sent :
      (s : Paxos T S) (es : List T) (pids : List ℕ) → Ensures (Sent s) (batch_all s es pids)
  unfolding batch_all
  batch_all-Sent s es [] = Ensures-done (Sent-refl s)
  batch_all-Sent s es (to ∷ rest) = Ensures-bind_any _ λ meta e.
      Ensures-bind (batch_at-Sent s to es meta)
        λ t h. Ensures-weaken (batch_all-Sent t es rest) λ u k. Sent-trans h k

  -- the state of a leader that has appended to its own log
  appended :
      (s : Paxos T S) (st : MemoryStorage T S) (ls : LeaderState T S)
      → SameRounds s.storage st
      → SameLeader s.leader_state ls
      → Sent s (record s { storage = st; leader_state = ls })
  appended s st ls h k = Sent-local s _ h.n_prom h.acc_round h.ld k refl (λ e. e) refl refl refl

  pub send_accept-Sent : (s : Paxos T S) (e : T) → Ensures (Sent s) (send_accept s e)
  unfolding send_accept
  send_accept-Sent s e = Ensures-bind (append_entry-SameRounds s.storage e) λ r h.
      Ensures-bind (set_accepted_idx-SameLeader s.leader_state s.pid r.1) λ ls k.
        Ensures-bind_any _ λ pids q.
          Ensures-weaken (batch_all-Sent _ (e ∷ []) pids)
            λ u k'. Sent-trans (appended s r.0 ls h k) k'

  pub send_batch_accept-Sent :
      (s : Paxos T S) (es : List T) → Ensures (Sent s) (send_batch_accept s es)
  unfolding send_batch_accept
  send_batch_accept-Sent s es = Ensures-bind (append_entries-SameRounds s.storage es) λ r h.
      Ensures-bind (set_accepted_idx-SameLeader s.leader_state s.pid r.1) λ ls k.
        Ensures-bind_any _ λ pids q.
          Ensures-weaken (batch_all-Sent _ es pids) λ u k'. Sent-trans (appended s r.0 ls h k) k'

  decide_cached-Sent :
      (s : Paxos T S) (to : ℕ) (d : Decide) (i : ℕ) (m : PaxosMessage T S) (msg : PaxosMsg T S)
      → get_elem? s.outgoing i ≡ some m
      → m.msg ≡ msg
      → Sent s (decide_cached s to d i m msg)
  unfolding decide_cached
  decide_cached-Sent s to d i m (accept_decide a) g e =
      overwritten s i m _ g (ap is_accepted e) refl tt (same_decide m a e _ refl refl refl)
  decide_cached-Sent s to d i m _ g e = send-Sent s to _ tt

  decide_at-Sent :
      (s : Paxos T S) (to : ℕ) (d : Decide) (o : Option (Ballot × ℕ))
      → Ensures (Sent s) (decide_at s to d o)
  unfolding decide_at
  decide_at-Sent s to d none = Ensures-done (send-Sent s to _ tt)
  decide_at-Sent s to d (some (n, i)) =
      Ensures-if _
        (λ e. Ensures-bind_any _ λ m g.
          Ensures-done (decide_cached-Sent s to d i m m.msg (index-eq-done s.outgoing i g) refl))
        (λ e. Ensures-done (send-Sent s to _ tt))

  pub decide_all-Sent :
      (s : Paxos T S) (d : Decide) (pids : List ℕ) → Ensures (Sent s) (decide_all s d pids)
  unfolding decide_all
  decide_all-Sent s d [] = Ensures-done (Sent-refl s)
  decide_all-Sent s d (to ∷ rest) = Ensures-bind_any _ λ meta e.
      Ensures-bind (decide_at-Sent s to d meta)
        λ t h. Ensures-weaken (decide_all-Sent t d rest) λ u k. Sent-trans h k
