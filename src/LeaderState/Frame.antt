-- ===== src/LeaderState/Frame.antt =====
-- The writing operations of `LeaderState` keep the round that the node leads, and all but `set_promise`
-- the promises.
use ik2203_distributed_coord.Prelude.{
  ℕ, ◌≡◌, ◌∙◌, refl, Option, arith, control, Ensures, suc, set, List, done, set_index, Ensures-done,
  Ensures-bind_any,
}
use ik2203_distributed_coord.LeaderState.{
  LeaderState, set_decided_idx, set_accepted_stopsign, set_batch_accept_meta, set_accepted_idx,
  pid_to_idx, tag_with,
}

pub pid_to_idx-suc : (pid i : ℕ) → pid_to_idx pid ≡ done i → suc i ≡ pid
unfolding pid_to_idx control
pid_to_idx-suc pid i h = ground arith

pub set_index-eq-done :
    {A : Type 0} (xs ys : List A) (i : ℕ) (x : A) → set_index xs i x ≡ done ys → ys ≡ set xs i x
unfolding control
set_index-eq-done xs ys i x h = ground arith

module _ {T S : Type 0} where
  -- The same round is led, with the same promises.
  pub record SameVotes (ls ls' : LeaderState T S) : Type 0 where
    pub n_leader : ls'.n_leader ≡ ls.n_leader
    pub promises_meta : ls'.promises_meta ≡ ls.promises_meta
    pub majority : ls'.majority ≡ ls.majority
    pub max_pid : ls'.max_pid ≡ ls.max_pid

  pub SameVotes-refl : (ls : LeaderState T S) → SameVotes ls ls
  SameVotes-refl ls = record {
    n_leader = refl;
    promises_meta = refl;
    majority = refl;
    max_pid = refl;
  }

  pub SameVotes-trans :
      {ls ls' ls'' : LeaderState T S} → SameVotes ls ls' → SameVotes ls' ls'' → SameVotes ls ls''
  SameVotes-trans h k = record {
    n_leader = k.n_leader ∙ h.n_leader;
    promises_meta = k.promises_meta ∙ h.promises_meta;
    majority = k.majority ∙ h.majority;
    max_pid = k.max_pid ∙ h.max_pid;
  }

  -- The same, with the same cached messages.
  pub record SameLeader (ls ls' : LeaderState T S) : Type 0 where
    pub votes : SameVotes ls ls'
    pub batch : ls'.batch_accept_meta ≡ ls.batch_accept_meta

  pub SameLeader-refl : (ls : LeaderState T S) → SameLeader ls ls
  SameLeader-refl ls = record { votes = SameVotes-refl ls; batch = refl }

  -- a new chosen index
  pub SameLeader-chosen_idx :
      {ls ls' : LeaderState T S} {i : ℕ}
      → SameLeader ls ls'
      → SameLeader ls (record ls' { chosen_idx = i })
  SameLeader-chosen_idx h = record {
    votes = record {
      n_leader = h.votes.n_leader;
      promises_meta = h.votes.promises_meta;
      majority = h.votes.majority;
      max_pid = h.votes.max_pid;
    };
    batch = h.batch;
  }

  pub set_decided_idx-SameLeader :
      (ls : LeaderState T S) (pid : ℕ) (i : Option ℕ)
      → Ensures (SameLeader ls) (set_decided_idx ls pid i)
  unfolding control set_decided_idx pid_to_idx
  set_decided_idx-SameLeader ls pid i = record { at = λ r h. ground arith }

  pub set_accepted_stopsign-SameLeader :
      (ls : LeaderState T S) (pid : ℕ) → Ensures (SameLeader ls) (set_accepted_stopsign ls pid)
  unfolding control set_accepted_stopsign pid_to_idx
  set_accepted_stopsign-SameLeader ls pid = record { at = λ r h. ground arith }

  pub set_batch_accept_meta-SameVotes :
      (ls : LeaderState T S) (pid : ℕ) (i : Option ℕ)
      → Ensures (SameVotes ls) (set_batch_accept_meta ls pid i)
  unfolding control set_batch_accept_meta pid_to_idx
  set_batch_accept_meta-SameVotes ls pid i = record { at = λ r h. ground arith }

  pub set_accepted_idx-SameLeader :
      (ls : LeaderState T S) (pid i : ℕ) → Ensures (SameLeader ls) (set_accepted_idx ls pid i)
  unfolding control set_accepted_idx pid_to_idx
  set_accepted_idx-SameLeader ls pid i = record { at = λ r h. ground arith }

  -- The cache of one follower is overwritten.
  pub set_batch_accept_meta-batch :
      (ls : LeaderState T S) (pid : ℕ) (i : Option ℕ)
      → Ensures
          (λ ls'.
            (j : ℕ) × (suc j ≡ pid)
            × (ls'.batch_accept_meta ≡ set ls.batch_accept_meta j (tag_with ls.n_leader i)))
          (set_batch_accept_meta ls pid i)
  unfolding set_batch_accept_meta
  set_batch_accept_meta-batch ls pid i = Ensures-bind_any _ λ j e. Ensures-bind_any _ λ bs e'.
      Ensures-done (j, pid_to_idx-suc pid j e, set_index-eq-done ls.batch_accept_meta bs j _ e')
