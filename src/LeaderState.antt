-- ===== src/LeaderState.antt =====
-- omnipaxos_core/src/util.rs: `PromiseMetaData` and `LeaderState`, what a leader knows of its
-- followers. A vector is indexed by `pid - 1`; an index out of range panics.
pub mod Frame
pub mod Votes
use ik2203_distributed_coord.Prelude.{
  ℕ, suc, ◌+◌, Bool, true, false, ◌&&◌, ◌||◌, not, Option, none, some, List, [], ◌∷◌, length,
  replicate, leb, ltb, ◌==◌, if◌then◌else◌, Outcome, done, ◌>>=◌, sub_u64, unwrap, index, set_index,
}
use ik2203_distributed_coord.Ballot.{Ballot, default, eq_ballot, lt_ballot}
use ik2203_distributed_coord.Storage.{StopSign, SnapshotType}
use ik2203_distributed_coord.Messages.{Promise}

pub record PromiseMetaData : Type 0 where
  pub n : Ballot
  pub accepted_idx : ℕ
  pub pid : ℕ
  pub stopsign : Option StopSign

-- `PromiseMetaData::default()`
abbrev pub default_meta : PromiseMetaData
default_meta = record { n = default; accepted_idx = 0; pid = 0; stopsign = none }

-- `a > b` by `partial_cmp`: not equal, and greater in ballot or in accepted index
unfoldable pub gt_meta : PromiseMetaData → PromiseMetaData → Bool
gt_meta a b =
    if eq_ballot a.n b.n && (a.accepted_idx == b.accepted_idx && a.pid == b.pid)
    then false
    else (lt_ballot b.n a.n || (eq_ballot a.n b.n && ltb b.accepted_idx a.accepted_idx))

pub record LeaderState (T S : Type 0) : Type 0 where
  pub n_leader : Ballot
  pub promises_meta : List (Option PromiseMetaData)
  pub accepted_indexes : List ℕ
  pub decided_indexes : List (Option ℕ)
  pub chosen_idx : ℕ
  pub max_promise_meta : PromiseMetaData
  pub max_promise : Option (Option (SnapshotType S) × List T)
  pub batch_accept_meta : List (Option (Ballot × ℕ))  -- index in `outgoing`
  pub accepted_stopsign : List Bool
  pub max_pid : ℕ
  pub majority : ℕ

-- `.iter().filter(..).count()`
abbrev pub count_if {ℓ} : {A : Type ℓ} → (A → Bool) → List A → ℕ
count_if p [] = 0
count_if p (x ∷ xs) = let rest = count_if p xs in if p x then suc rest else rest

abbrev pub is_some {ℓ} : {A : Type ℓ} → Option A → Bool
is_some none = false
is_some (some a) = true

abbrev pub unwrap_or {ℓ} : {A : Type ℓ} → Option A → A → A
unwrap_or none d = d
unwrap_or (some a) d = a

-- `iter().min()`
unfoldable pub min_of : ℕ → List ℕ → ℕ
min_of m [] = m
min_of m (x ∷ xs) = min_of (if ltb x m then x else m) xs

unfoldable pub minimum : List ℕ → Option ℕ
unfolding min_of
minimum [] = none
minimum (x ∷ xs) = some (min_of x xs)

unfoldable pub pid_to_idx : ℕ → Outcome ℕ
pid_to_idx pid = sub_u64 pid 1

-- `enumerate`, `filter` and `map` of `get_promised_followers`, from index `i` on
unfoldable pub promised_from : ℕ → ℕ → List (Option ℕ) → List ℕ
promised_from i leader_idx [] = []
promised_from i leader_idx (x ∷ xs) =
    let rest = promised_from (i + 1) leader_idx xs in
    if is_some x && not (i == leader_idx) then (i + 1) ∷ rest else rest

abbrev pub tag_with : Ballot → Option ℕ → Option (Ballot × ℕ)
tag_with n none = none
tag_with n (some x) = some (n, x)

module _ {T S : Type 0} where
  -- `LeaderState::with`
  unfoldable pub leader_state_with : Ballot → Option (List (Option ℕ)) → ℕ → ℕ → LeaderState T S
  leader_state_with n_leader decided_indexes max_pid majority = record {
    n_leader = n_leader;
    promises_meta = replicate max_pid none;
    accepted_indexes = replicate max_pid 0;
    decided_indexes = unwrap_or decided_indexes (replicate max_pid none);
    chosen_idx = 0;
    max_promise_meta = default_meta;
    max_promise = none;
    batch_accept_meta = replicate max_pid none;
    accepted_stopsign = replicate max_pid false;
    max_pid = max_pid;
    majority = majority;
  }

  unfoldable pub set_decided_idx : LeaderState T S → ℕ → Option ℕ → Outcome (LeaderState T S)
  set_decided_idx ls pid idx = do
    i ← pid_to_idx pid
    ds ← set_index ls.decided_indexes i idx
    done (record ls { decided_indexes = ds })

  abbrev meta_of : Promise T S → ℕ → PromiseMetaData
  meta_of prom from = record {
    n = prom.n_accepted;
    accepted_idx = prom.accepted_idx;
    pid = from;
    stopsign = prom.stopsign;
  }

  -- the first half of `set_promise`: keep the promise if it is the greatest so far
  unfoldable pub keep_max_promise : LeaderState T S → Promise T S → ℕ → Bool → LeaderState T S
  keep_max_promise ls prom from check_max_prom =
      if check_max_prom && gt_meta (meta_of prom from) ls.max_promise_meta
      then record ls {
        max_promise_meta = meta_of prom from;
        max_promise = some (prom.decided_snapshot, prom.suffix);
      }
      else ls

  -- whether a majority has promised
  unfoldable pub set_promise :
      LeaderState T S → Promise T S → ℕ → Bool → Outcome (LeaderState T S × Bool)
  set_promise ls prom from check_max_prom = do
    let ls' = keep_max_promise ls prom from check_max_prom
    i ← pid_to_idx from
    ds ← set_index ls'.decided_indexes i (some prom.decided_idx)
    ps ← set_index ls'.promises_meta i (some (meta_of prom from))
    done (
      record ls' { decided_indexes = ds; promises_meta = ps },
      leb ls'.majority (count_if is_some ps),
    )

  unfoldable pub set_accepted_stopsign : LeaderState T S → ℕ → Outcome (LeaderState T S)
  set_accepted_stopsign ls from = do
    i ← pid_to_idx from
    ss ← set_index ls.accepted_stopsign i true
    done (record ls { accepted_stopsign = ss })

  unfoldable pub get_promise_meta : LeaderState T S → ℕ → Outcome PromiseMetaData
  get_promise_meta ls pid = do i ← pid_to_idx pid; o ← index ls.promises_meta i; unwrap o

  unfoldable pub get_min_all_accepted_idx : LeaderState T S → Outcome ℕ
  unfolding minimum
  get_min_all_accepted_idx ls = unwrap (minimum ls.accepted_indexes)

  unfoldable pub reset_batch_accept_meta : LeaderState T S → LeaderState T S
  reset_batch_accept_meta ls = record ls { batch_accept_meta = replicate ls.max_pid none }

  -- The source reads the leader's pid at each index, so a leader pid of 0 panics when an index has
  -- a decided index.
  unfoldable pub get_promised_followers : LeaderState T S → Outcome (List ℕ)
  unfolding promised_from
  get_promised_followers ls =
      if count_if is_some ls.decided_indexes == 0
      then done []
      else (do i ← pid_to_idx ls.n_leader.pid; done (promised_from 0 i ls.decided_indexes))

  unfoldable pub set_batch_accept_meta : LeaderState T S → ℕ → Option ℕ → Outcome (LeaderState T S)
  set_batch_accept_meta ls pid idx = do
    i ← pid_to_idx pid
    bs ← set_index ls.batch_accept_meta i (tag_with ls.n_leader idx)
    done (record ls { batch_accept_meta = bs })

  unfoldable pub set_accepted_idx : LeaderState T S → ℕ → ℕ → Outcome (LeaderState T S)
  set_accepted_idx ls pid idx = do
    i ← pid_to_idx pid
    xs ← set_index ls.accepted_indexes i idx
    done (record ls { accepted_indexes = xs })

  unfoldable pub get_batch_accept_meta : LeaderState T S → ℕ → Outcome (Option (Ballot × ℕ))
  get_batch_accept_meta ls pid = do i ← pid_to_idx pid; index ls.batch_accept_meta i

  unfoldable pub get_decided_idx : LeaderState T S → ℕ → Outcome (Option ℕ)
  get_decided_idx ls pid = do i ← pid_to_idx pid; index ls.decided_indexes i

  unfoldable pub is_stopsign_chosen : LeaderState T S → Bool
  is_stopsign_chosen ls = leb ls.majority (count_if (λ x. x) ls.accepted_stopsign)

  unfoldable pub is_chosen : LeaderState T S → ℕ → Bool
  is_chosen ls idx = leb ls.majority (count_if (λ la. leb idx la) ls.accepted_indexes)
