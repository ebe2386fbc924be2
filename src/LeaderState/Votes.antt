-- ===== src/LeaderState/Votes.antt =====
-- omnipaxos_core/src/util.rs, `set_promise` of `LeaderState`: the promises that a leader has counted.
use ik2203_distributed_coord.Prelude.{
  ℕ, zero, suc, ◌≡◌, ◌≤◌, ◌⊎◌, inl, inr, refl, Bool, true, false, Option, none, some, List, [], ◌∷◌,
  set, replicate, leb, arith, control, Ensures, Ensures-done, Ensures-bind_any, set_index, done,
  length, length-set, ◌∙◌, ap,
}
use ik2203_distributed_coord.Messages.{Promise}
use ik2203_distributed_coord.LeaderState.Frame.{
  SameVotes, SameLeader, pid_to_idx-suc, set_index-eq-done,
}
use ik2203_distributed_coord.LeaderState.{
  LeaderState, PromiseMetaData, count_if, is_some, keep_max_promise, set_promise, pid_to_idx,
}

-- There is a promise at index `i`.
unfoldable pub vote_at : List (Option PromiseMetaData) → ℕ → Bool
vote_at [] i = false
vote_at (x ∷ xs) zero = is_some x
vote_at (x ∷ xs) (suc i) = vote_at xs i

pub vote_at-replicate : (n i : ℕ) → vote_at (replicate n none) i ≡ false
unfolding vote_at
vote_at-replicate zero i = refl
vote_at-replicate (suc n) zero = refl
vote_at-replicate (suc n) (suc i) = vote_at-replicate n i

vote_at-set :
    (xs : List (Option PromiseMetaData)) (j : ℕ) (x : Option PromiseMetaData) (i : ℕ)
    → vote_at (set xs j x) i ≡ true
    → (vote_at xs i ≡ true) ⊎ (i ≡ j)
unfolding vote_at
vote_at-set [] j x i h = inl h
vote_at-set (y ∷ xs) zero x zero h = inr refl
vote_at-set (y ∷ xs) zero x (suc i) h = inl h
vote_at-set (y ∷ xs) (suc j) x zero h = inl h
vote_at-set (y ∷ xs) (suc j) x (suc i) h = elim (vote_at-set xs j x i h) [
  | inl k ↦ inl k
  | inr k ↦ inr (rw k refl)
]

count_if-set :
    (xs : List (Option PromiseMetaData)) (j : ℕ) (x : PromiseMetaData)
    → count_if is_some xs ≤ count_if is_some (set xs j (some x))
unfolding control
count_if-set [] j x = omega arith
count_if-set (none ∷ xs) zero x = omega arith
count_if-set (some y ∷ xs) zero x = omega arith
count_if-set (none ∷ xs) (suc j) x = count_if-set xs j x
count_if-set (some y ∷ xs) (suc j) x = ground (arith, count_if-set xs j x)

-- The number of promises.
abbrev pub votes : {T S : Type 0} → LeaderState T S → ℕ
votes ls = count_if is_some ls.promises_meta

module _ {T S : Type 0} where
  -- Between the two, no promise was counted but one from `from`, and none was lost.
  pub record Joins (from : ℕ) (ls ls' : LeaderState T S) : Type 0 where
    pub n_leader : ls'.n_leader ≡ ls.n_leader
    pub majority : ls'.majority ≡ ls.majority
    pub max_pid : ls'.max_pid ≡ ls.max_pid
    pub batch : ls'.batch_accept_meta ≡ ls.batch_accept_meta
    pub members : length ls'.promises_meta ≡ length ls.promises_meta
    pub joined :
        (i : ℕ)
        → vote_at ls'.promises_meta i ≡ true
        → (vote_at ls.promises_meta i ≡ true) ⊎ (suc i ≡ from)
    pub more : votes ls ≤ votes ls'

  keep_max_promise-SameLeader :
      (ls : LeaderState T S) (prom : Promise T S) (from : ℕ) (check : Bool)
      → SameLeader ls (keep_max_promise ls prom from check)
  unfolding keep_max_promise control
  keep_max_promise-SameLeader ls prom from check = ground arith

  -- a leader state with one more promise
  joins :
      (ls ls' : LeaderState T S) (ds : List (Option ℕ)) (ps : List (Option PromiseMetaData))
      (from i : ℕ) (x : PromiseMetaData)
      → SameLeader ls ls'
      → pid_to_idx from ≡ done i
      → set_index ls'.promises_meta i (some x) ≡ done ps
      → Joins from ls (record ls' { decided_indexes = ds; promises_meta = ps })
  joins ls ls' ds ps from i x h e k =
      let q : ps ≡ set ls.promises_meta i (some x) =
        rw (← h.votes.promises_meta) (set_index-eq-done ls'.promises_meta ps i (some x) k) in
      record {
        n_leader = h.votes.n_leader;
        majority = h.votes.majority;
        max_pid = h.votes.max_pid;
        batch = h.batch;
        members = rw q (length-set ls.promises_meta i (some x));
        joined = λ j v. elim (vote_at-set ls.promises_meta i (some x) j (rw (← q) v)) [
          | inl b ↦ inl b
          | inr b ↦ inr (rw b (pid_to_idx-suc from i e))
        ];
        more = rw q (count_if-set ls.promises_meta i x);
      }

  -- `set_promise` counts one promise, and its answer is whether a majority has promised.
  pub set_promise-Joins :
      (ls : LeaderState T S) (prom : Promise T S) (from : ℕ) (check : Bool)
      → Ensures
          (λ r. Joins from ls r.0 × (r.1 ≡ leb r.0.majority (votes r.0)))
          (set_promise ls prom from check)
  unfolding set_promise
  set_promise-Joins ls prom from check = Ensures-bind_any _ λ i e. Ensures-bind_any _ λ ds e'.
      Ensures-bind_any _ λ ps e''.
        Ensures-done
          (joins ls _ ds ps from i _ (keep_max_promise-SameLeader ls prom from check) e e'', refl)

  -- Both count as many replicas and need as many of them, and the promises have a place for each.
  pub record SameSize (ls ls' : LeaderState T S) : Type 0 where
    pub max_pid : ls'.max_pid ≡ ls.max_pid
    pub majority : ls'.majority ≡ ls.majority
    pub members : length ls.promises_meta ≡ ls.max_pid → length ls'.promises_meta ≡ ls'.max_pid

  pub SameSize-trans :
      {ls ls' ls'' : LeaderState T S} → SameSize ls ls' → SameSize ls' ls'' → SameSize ls ls''
  SameSize-trans h k = record {
    max_pid = k.max_pid ∙ h.max_pid;
    majority = k.majority ∙ h.majority;
    members = λ e. k.members (h.members e);
  }

  pub SameVotes-SameSize : {ls ls' : LeaderState T S} → SameVotes ls ls' → SameSize ls ls'
  SameVotes-SameSize h = record {
    max_pid = h.max_pid;
    majority = h.majority;
    members = λ e. rw (h.promises_meta, h.max_pid) e;
  }

  pub Joins-SameSize : {ls ls' : LeaderState T S} {from : ℕ} → Joins from ls ls' → SameSize ls ls'
  Joins-SameSize h = record {
    max_pid = h.max_pid;
    majority = h.majority;
    members = λ e. rw (h.members, h.max_pid) e;
  }

pub length-replicate : (n : ℕ) (x : Option PromiseMetaData) → length (replicate n x) ≡ n
length-replicate zero x = refl
length-replicate (suc n) x = ap suc (length-replicate n x)
