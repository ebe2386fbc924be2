-- ===== src/Paxos/Batches.antt =====
-- omnipaxos_core/src/sequence_paxos/leader.rs with the feature batch_accept: the loop of `send_accept`
-- and `send_batch_accept` over the followers, which extends the cached message of each or pushes one.
use ik2203_distributed_coord.Prelude.{
  ℕ, zero, suc, ◌≡◌, ◌<◌, ◌≤◌, refl, ◌∙◌, inl, inr, Option, none, some, List, [], ◌∷◌, ◌++◌,
  get_elem?, length, length-set, arith, control, get_elem?-append_length, get_elem?-set_self,
  lt_of_get_elem?, done, Returns, Returns-done, Returns-bind, Bool-cases, lt→ltb, All, all_nil,
  all_cons, All-weaken,
}
use ik2203_distributed_coord.Ballot.{Ballot, eq_ballot}
use ik2203_distributed_coord.Ballot.Order.{eq_ballot_iff}
use ik2203_distributed_coord.Messages.{PaxosMessage, AcceptDecide, accept_decide}
use ik2203_distributed_coord.LeaderState.{pid_to_idx, get_batch_accept_meta, set_batch_accept_meta}
use ik2203_distributed_coord.Paxos.{Paxos, send}
use ik2203_distributed_coord.Paxos.Frame.{Batches}
use ik2203_distributed_coord.Paxos.Frame.Batching.{batch_at-Sent}
use ik2203_distributed_coord.Paxos.Sending.{
  send_accept_and_cache, extend_cached, batch_at, batch_all,
}
use ik2203_distributed_coord.Paxos.Gives.{IsGiven, Gives, Gives-append, Gives-set}

pid_to_idx-runs : (j : ℕ) → pid_to_idx (suc j) ≡ done j
unfolding pid_to_idx control
pid_to_idx-runs j = ground arith

get_elem?_of_lt :
    {A : Type 0} (xs : List A) (j : ℕ) → j < length xs → (x : A) × (get_elem? xs j ≡ some x)
get_elem?_of_lt [] j h = absurd (omega arith)
get_elem?_of_lt (x ∷ xs) zero h = (x, refl)
get_elem?_of_lt (x ∷ xs) (suc j) h = get_elem?_of_lt xs j (omega arith)

-- The follower has a place in the cache of a leader with `k` of them.
pub record HasPlace (k : ℕ) (to : ℕ) : Type 0 where
  pub first : 1 ≤ to
  pub last : to ≤ k

module _ {T S : Type 0} (es : List T) where
  -- From `s` to `t` no message with these entries is lost, and as many followers have a cache.
  pub record Stepped (s t : Paxos T S) : Type 0 where
    caches : length t.leader_state.batch_accept_meta ≡ length s.leader_state.batch_accept_meta
    pub storage : t.storage ≡ s.storage
    keeps : (n : Ballot) (to : ℕ) → Gives es n s.outgoing to → Gives es n t.outgoing to

  -- A pushed message.
  send_accept_and_cache-Gives :
      (s : Paxos T S) (j : ℕ)
      → j < length s.leader_state.batch_accept_meta
      → Returns
          (λ t. Stepped s t × Gives es s.leader_state.n_leader t.outgoing (suc j))
          (send_accept_and_cache s (suc j) es)
  unfolding send_accept_and_cache send set_batch_accept_meta control
  send_accept_and_cache-Gives s j h =
      rw (pid_to_idx-runs j, lt→ltb _ _ h)
        (Returns-done (
          record {
            caches = length-set s.leader_state.batch_accept_meta j _;
            storage = refl;
            keeps = λ n to g. Gives-append es n s.outgoing _ to g;
          },
          record {
            at = length s.outgoing;
            message = _;
            found = get_elem?-append_length s.outgoing _;
            given = record {
              to_eq = refl;
              acc = _;
              msg_eq = refl;
              n_eq = refl;
              before = [];
              entries = refl;
            };
          },
        ))

  -- An extended message that gave them before gives them after.
  extended :
      (m : PaxosMessage T S) (a : AcceptDecide T) (to : ℕ) (n : Ballot)
      → m.to ≡ to
      → a.n ≡ n
      → IsGiven es to n (record m { msg = accept_decide (record a { entries = a.entries ++ es }) })
  extended m a to n e q = record {
    to_eq = e;
    acc = record a { entries = a.entries ++ es };
    msg_eq = refl;
    n_eq = q;
    before = a.entries;
    entries = refl;
  }

  extend_cached-Gives :
      (s : Paxos T S) (j i : ℕ) (m : PaxosMessage T S) (a : AcceptDecide T)
      → get_elem? s.outgoing i ≡ some m
      → m.msg ≡ accept_decide a
      → m.to ≡ suc j
      → a.n ≡ s.leader_state.n_leader
      → Returns
          (λ t. Stepped s t × Gives es s.leader_state.n_leader t.outgoing (suc j))
          (extend_cached s (suc j) es i m (accept_decide a))
  unfolding extend_cached
  extend_cached-Gives s j i m a g q e r = Returns-done (
    record {
      caches = refl;
      storage = refl;
      keeps = λ n to h.
          Gives-set es n to s.outgoing i m _ g
            (λ x. extended m a to n x.to_eq (ground (arith, x.n_eq, x.msg_eq, q))) h.at h.message
            h.found h.given;
    },
    record {
      at = i;
      message = _;
      found = get_elem?-set_self s.outgoing i _ (lt_of_get_elem? s.outgoing i m g);
      given = extended m a (suc j) s.leader_state.n_leader e r;
    },
  )

  batch_at-Gives :
      (s : Paxos T S) (j : ℕ) (o : Option (Ballot × ℕ))
      → Batches s
      → get_elem? s.leader_state.batch_accept_meta j ≡ some o
      → Returns
          (λ t. Stepped s t × Gives es s.leader_state.n_leader t.outgoing (suc j))
          (batch_at s (suc j) es o)
  unfolding batch_at control
  batch_at-Gives s j none b g =
      send_accept_and_cache-Gives s j (lt_of_get_elem? s.leader_state.batch_accept_meta j none g)
  batch_at-Gives s j (some (n, i)) b g = elim (Bool-cases (eq_ballot n s.leader_state.n_leader)) [
    | inl e ↦
        let p = b.at j n i g in
        let q = (eq_ballot_iff n s.leader_state.n_leader).0 e in
        rw (e, p.found, p.decides.msg_eq)
          (extend_cached-Gives s j i p.message p.decides.acc p.found p.decides.msg_eq
            p.decides.to_eq (p.decides.n_eq ∙ q))
    | inr e ↦ rw e (
        send_accept_and_cache-Gives s j
          (lt_of_get_elem? s.leader_state.batch_accept_meta j (some (n, i)) g))
  ]

  -- What one follower's turn leaves.
  record Turn (s t : Paxos T S) (to : ℕ) : Type 0 where
    stepped : Stepped s t
    gives : Gives es s.leader_state.n_leader t.outgoing to
    n_leader : t.leader_state.n_leader ≡ s.leader_state.n_leader
    batches : Batches t

  batch_at-Turn :
      (s : Paxos T S) (j : ℕ) (o : Option (Ballot × ℕ))
      → Batches s
      → get_elem? s.leader_state.batch_accept_meta j ≡ some o
      → Returns (λ t. Turn s t (suc j)) (batch_at s (suc j) es o)
  batch_at-Turn s j o b g =
      let r = batch_at-Gives s j o b g in
      let sent = (batch_at-Sent s (suc j) es o).at r.value r.runs in
      record {
        value = r.value;
        runs = r.runs;
        meets = record {
          stepped = r.meets.0;
          gives = r.meets.1;
          n_leader = sent.votes.n_leader;
          batches = sent.batches b;
        };
      }

  pub batch_all-Stepped :
      (s : Paxos T S) (pids : List ℕ)
      → Batches s
      → All (HasPlace (length s.leader_state.batch_accept_meta)) pids
      → Returns
          (λ t. Stepped s t × All (Gives es s.leader_state.n_leader t.outgoing) pids)
          (batch_all s es pids)
  unfolding batch_all get_batch_accept_meta control
  batch_all-Stepped s [] b all_nil =
      Returns-done (record { caches = refl; storage = refl; keeps = λ n to g. g }, all_nil)
  batch_all-Stepped s (zero ∷ pids) b (all_cons p h) = absurd (omega (arith, p.first))
  batch_all-Stepped s (suc j ∷ pids) b (all_cons p h) =
      let (o, g) = get_elem?_of_lt s.leader_state.batch_accept_meta j (omega (arith, p.last)) in
      rw (pid_to_idx-runs j, g)
        (Returns-bind (batch_at-Turn s j o b g) λ t turn.
          let rest =
            batch_all-Stepped t pids turn.batches
              (All-weaken (λ to x. rw turn.stepped.caches x) h) in
          record {
            value = rest.value;
            runs = rest.runs;
            meets = (
              record {
                caches = rest.meets.0.caches ∙ turn.stepped.caches;
                storage = rest.meets.0.storage ∙ turn.stepped.storage;
                keeps = λ n to x. rest.meets.0.keeps n to (turn.stepped.keeps n to x);
              },
              all_cons (rest.meets.0.keeps _ _ turn.gives) (rw (← turn.n_leader) rest.meets.1),
            );
          })
