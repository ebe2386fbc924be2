-- ===== src/Paxos/Frame.antt =====
-- What the shared operations of a replica leave alone: the rounds, the decided index, the role, the
-- promises that are counted, and the Accepted messages among the outgoing ones; and that what they
-- send is honest.
pub mod Leaders
pub mod Sends
pub mod Batching
pub mod Calls
use ik2203_distributed_coord.Prelude.{
  ℕ, zero, suc, ◌≡◌, refl, Bool, true, false, Option, some, List, [], ◌∷◌, ◌++◌, set, get_elem?,
  arith, control, if◌then◌else◌, All, ◌⊎◌, ◌∙◌, leb,
}
use ik2203_distributed_coord.Ballot.{Ballot}
use ik2203_distributed_coord.Ballot.Order.{Le, Le-trans}
use ik2203_distributed_coord.LeaderState.Frame.{
  SameVotes, SameVotes-refl, SameVotes-trans, SameLeader, SameLeader-refl,
}
use ik2203_distributed_coord.Paxos.Cached.{IsCached}
use ik2203_distributed_coord.LeaderState.Votes.{votes}
use ik2203_distributed_coord.Messages.{PaxosMsg, PaxosMessage, accepted, promise, accepted_stopsign}
use ik2203_distributed_coord.Paxos.{Paxos, Role, Phase}

module _ {T S : Type 0} where
  abbrev pub is_accepted : PaxosMsg T S → Bool
  is_accepted (accepted a) = true
  is_accepted _ = false

  -- The message at index `i` is an Accepted.
  unfoldable pub accepted_at : List (PaxosMessage T S) → ℕ → Bool
  accepted_at [] i = false
  accepted_at (m ∷ ms) zero = is_accepted m.msg
  accepted_at (m ∷ ms) (suc i) = accepted_at ms i

  pub accepted_at-append :
      (xs ys : List (PaxosMessage T S)) (i : ℕ)
      → accepted_at xs i ≡ true
      → accepted_at (xs ++ ys) i ≡ true
  unfolding accepted_at
  accepted_at-append [] ys i h = cc
  accepted_at-append (x ∷ xs) ys zero h = h
  accepted_at-append (x ∷ xs) ys (suc i) h = accepted_at-append xs ys i h

  -- Overwriting a message of another kind loses no Accepted.
  pub accepted_at-set :
      (xs : List (PaxosMessage T S)) (j : ℕ) (m m' : PaxosMessage T S) (i : ℕ)
      → get_elem? xs j ≡ some m
      → is_accepted m.msg ≡ false
      → accepted_at xs i ≡ true
      → accepted_at (set xs j m') i ≡ true
  unfolding accepted_at
  accepted_at-set [] j m m' i g k h = cc
  accepted_at-set (x ∷ xs) zero m m' zero g k h = ground arith
  accepted_at-set (x ∷ xs) zero m m' (suc i) g k h = h
  accepted_at-set (x ∷ xs) (suc j) m m' zero g k h = h
  accepted_at-set (x ∷ xs) (suc j) m m' (suc i) g k h = accepted_at-set xs j m m' i g k h

  -- An Accepted written over any message loses no Accepted either.
  pub accepted_at-set_accepted :
      (xs : List (PaxosMessage T S)) (j : ℕ) (m' : PaxosMessage T S) (i : ℕ)
      → is_accepted m'.msg ≡ true
      → accepted_at xs i ≡ true
      → accepted_at (set xs j m') i ≡ true
  unfolding accepted_at
  accepted_at-set_accepted [] j m' i k h = cc
  accepted_at-set_accepted (x ∷ xs) zero m' zero k h = k
  accepted_at-set_accepted (x ∷ xs) zero m' (suc i) k h = h
  accepted_at-set_accepted (x ∷ xs) (suc j) m' zero k h = h
  accepted_at-set_accepted (x ∷ xs) (suc j) m' (suc i) k h = accepted_at-set_accepted xs j m' i k h

  accepted_at-get_elem? :
      (xs : List (PaxosMessage T S)) (j : ℕ) (m : PaxosMessage T S)
      → get_elem? xs j ≡ some m
      → accepted_at xs j ≡ is_accepted m.msg
  unfolding accepted_at
  accepted_at-get_elem? [] j m g = cc
  accepted_at-get_elem? (x ∷ xs) zero m g = ground arith
  accepted_at-get_elem? (x ∷ xs) (suc j) m g = accepted_at-get_elem? xs j m g

  -- What a follower's message says of the round its sender has promised.
  abbrev pub Claims : Ballot → PaxosMsg T S → Type 0
  Claims n (promise p) = Le p.n n
  Claims n (accepted a) = Le a.n n
  Claims n (accepted_stopsign a) = Le a.n n
  Claims n _ = Unit

  -- The message names its sender, and what it says of the sender's round holds.
  pub record IsHonest (pid : ℕ) (n : Ballot) (m : PaxosMessage T S) : Type 0 where
    pub from : m.from ≡ pid
    pub claim : Claims n m.msg

  -- What is claimed of a round holds of a later one.
  pub Claims-later : (n n' : Ballot) → Le n n' → (m : PaxosMsg T S) → Claims n m → Claims n' m
  Claims-later n n' h (promise p) c = Le-trans _ _ _ c h
  Claims-later n n' h (accepted a) c = Le-trans _ _ _ c h
  Claims-later n n' h (accepted_stopsign a) c = Le-trans _ _ _ c h
  Claims-later n n' h _ c = tt

  pub IsHonest-later :
      {pid : ℕ} {n n' : Ballot}
      → Le n n'
      → (m : PaxosMessage T S) → IsHonest pid n m
      → IsHonest pid n' m
  IsHonest-later h m x = record { from = x.from; claim = Claims-later _ _ h m.msg x.claim }

  abbrev pub Talks : Paxos T S → Type 0
  Talks s = All (IsHonest s.pid s.storage.n_prom) s.outgoing

  -- What the leader caches of the latest AcceptDecide messages is right.
  abbrev pub Batches : Paxos T S → Type 0
  Batches s = IsCached s.outgoing s.leader_state.batch_accept_meta

  -- A leader past its Prepare phase has the promises of a majority.
  abbrev pub Quorum : Paxos T S → Type 0
  Quorum s =
      s.role ≡ Role.leader
      → (s.phase ≡ Phase.prepare) ⊎ (leb s.leader_state.majority (votes s.leader_state) ≡ true)

  -- From `s` to `t` messages were sent and entries may have been appended, and no more.
  pub record Sent (s t : Paxos T S) : Type 0 where
    pub n_prom : t.storage.n_prom ≡ s.storage.n_prom
    pub acc_round : t.storage.acc_round ≡ s.storage.acc_round
    pub ld : t.storage.ld ≡ s.storage.ld
    pub votes : SameVotes s.leader_state t.leader_state
    pub role : t.role ≡ s.role
    pub phase : s.phase ≡ Phase.prepare → t.phase ≡ Phase.prepare
    pub cached : t.latest_accepted_meta ≡ s.latest_accepted_meta
    pub batches : Batches s → Batches t
    pub pid : t.pid ≡ s.pid
    pub keeps : (i : ℕ) → accepted_at s.outgoing i ≡ true → accepted_at t.outgoing i ≡ true
    pub talks : Talks s → Talks t

  pub Sent-refl : (s : Paxos T S) → Sent s s
  Sent-refl s = record {
    n_prom = refl;
    acc_round = refl;
    ld = refl;
    votes = SameVotes-refl _;
    role = refl;
    phase = λ e. e;
    cached = refl;
    batches = λ h. h;
    pid = refl;
    keeps = λ i h. h;
    talks = λ h. h;
  }

  pub Sent-trans : {s t u : Paxos T S} → Sent s t → Sent t u → Sent s u
  Sent-trans h k = record {
    n_prom = k.n_prom ∙ h.n_prom;
    acc_round = k.acc_round ∙ h.acc_round;
    ld = k.ld ∙ h.ld;
    votes = SameVotes-trans h.votes k.votes;
    role = k.role ∙ h.role;
    phase = λ e. k.phase (h.phase e);
    cached = k.cached ∙ h.cached;
    batches = λ x. k.batches (h.batches x);
    pid = k.pid ∙ h.pid;
    keeps = λ i a. k.keeps i (h.keeps i a);
    talks = λ a. k.talks (h.talks a);
  }

  pub Sent-if : {s t u : Paxos T S} (b : Bool) → Sent s t → Sent s u → Sent s (if b then t else u)
  unfolding control
  Sent-if true h k = h
  Sent-if false h k = k

  pub Talks-same :
      (s t : Paxos T S)
      → t.storage.n_prom ≡ s.storage.n_prom
      → t.pid ≡ s.pid
      → t.outgoing ≡ s.outgoing
      → Talks s
      → Talks t
  Talks-same s t n p o h = rw (n, p, o) h

  pub Batches-same :
      (s t : Paxos T S)
      → t.leader_state.batch_accept_meta ≡ s.leader_state.batch_accept_meta
      → t.outgoing ≡ s.outgoing
      → Batches s
      → Batches t
  Batches-same s t b o h = rw (b, o) h

  -- A step that sends nothing.
  pub Sent-local :
      (s t : Paxos T S)
      → t.storage.n_prom ≡ s.storage.n_prom
      → t.storage.acc_round ≡ s.storage.acc_round
      → t.storage.ld ≡ s.storage.ld
      → SameLeader s.leader_state t.leader_state
      → t.role ≡ s.role
      → (s.phase ≡ Phase.prepare → t.phase ≡ Phase.prepare)
      → t.latest_accepted_meta ≡ s.latest_accepted_meta
      → t.pid ≡ s.pid
      → t.outgoing ≡ s.outgoing
      → Sent s t
  Sent-local s t n a l v r ph c p o = record {
    n_prom = n;
    acc_round = a;
    ld = l;
    votes = v.votes;
    role = r;
    phase = ph;
    cached = c;
    batches = Batches-same s t v.batch o;
    pid = p;
    keeps = λ i h. rw o h;
    talks = Talks-same s t n p o;
  }

  -- A step that also leaves the storage's rounds and what the leader knows.
  pub Sent-same :
      (s t : Paxos T S)
      → t.storage.n_prom ≡ s.storage.n_prom
      → t.storage.acc_round ≡ s.storage.acc_round
      → t.storage.ld ≡ s.storage.ld
      → t.leader_state ≡ s.leader_state
      → t.role ≡ s.role
      → t.phase ≡ s.phase
      → t.latest_accepted_meta ≡ s.latest_accepted_meta
      → t.pid ≡ s.pid
      → t.outgoing ≡ s.outgoing
      → Sent s t
  Sent-same s t n a l v r ph c p o =
      Sent-local s t n a l (rw v (SameLeader-refl _)) r (λ e. ph ∙ e) c p o

  -- The last thing a step does is to enter another phase.
  pub Sent-phase :
      {s t : Paxos T S} (p : Phase)
      → Sent s t
      → (s.phase ≡ Phase.prepare → p ≡ Phase.prepare)
      → Sent s (record t { phase = p })
  Sent-phase p h k = record {
    n_prom = h.n_prom;
    acc_round = h.acc_round;
    ld = h.ld;
    votes = h.votes;
    role = h.role;
    phase = k;
    cached = h.cached;
    batches = h.batches;
    pid = h.pid;
    keeps = h.keeps;
    talks = h.talks;
  }
