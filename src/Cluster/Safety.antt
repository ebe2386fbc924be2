-- ===== src/Cluster/Safety.antt =====
-- The rounds of a cluster: who leads them, who has promised them and what becomes of older ones.
use ik2203_distributed_coord.Prelude.{
  ℕ, zero, suc, ◌≢◌, ◌+◌, ◌≡◌, ◌≤◌, ◌<◌, sym, ◌∙◌, ap, true, inl, inr, Option, some, List, [], ◌∷◌,
  get_elem?, All-get, arith, done, leb→le,
}
use ik2203_distributed_coord.Ballot.{Ballot}
use ik2203_distributed_coord.Ballot.Order.{Le, Lt, Lt_of_Lt_of_Le, Lt-ne, Lt-not_le}
use ik2203_distributed_coord.Storage.{Snapshot}
use ik2203_distributed_coord.Messages.{
  PaxosMsg, PaxosMessage, prepare, accept_sync, first_accept, accept_decide, decide,
  accept_stopsign, decide_stopsign,
}
use ik2203_distributed_coord.LeaderState.{is_some, PromiseMetaData}
use ik2203_distributed_coord.LeaderState.Votes.{vote_at, votes}
use ik2203_distributed_coord.Paxos.{Paxos, Role, Phase}
use ik2203_distributed_coord.Paxos.Handle.{handle}
use ik2203_distributed_coord.Paxos.Stale.{IsStale, dispatch-stale}
use ik2203_distributed_coord.Paxos.Quorum.{quorums-meet}
use ik2203_distributed_coord.Cluster.{Cluster, IsSent, IsStart, ClusterReach}
use ik2203_distributed_coord.Cluster.Invariant.{IsTrue, Inv-reach}

vote_at-get :
    (xs : List (Option PromiseMetaData)) (i : ℕ) (x : Option PromiseMetaData)
    → get_elem? xs i ≡ some x
    → is_some x ≡ true
    → vote_at xs i ≡ true
unfolding vote_at
vote_at-get [] i x g h = cc
vote_at-get (y ∷ xs) zero x g h = ground arith
vote_at-get (y ∷ xs) (suc i) x g h = vote_at-get xs i x g h

module _ {T S : Type 0} where
  -- The replica leads, and its Prepare phase is over.
  pub record IsEstablished (s : Paxos T S) : Type 0 where
    pub leads : s.role ≡ Role.leader
    pub prepared : s.phase ≢ Phase.prepare

  -- The message is an order of a leader of the round `n`.
  abbrev pub Orders : Ballot → PaxosMsg T S → Type 0
  Orders n (prepare p) = p.n ≡ n
  Orders n (accept_sync a) = a.n ≡ n
  Orders n (first_accept f) = f.n ≡ n
  Orders n (accept_decide a) = a.n ≡ n
  Orders n (decide d) = d.n ≡ n
  Orders n (accept_stopsign a) = a.n ≡ n
  Orders n (decide_stopsign d) = d.n ≡ n
  Orders n _ = ⊥

  Orders-IsStale :
      (s : Paxos T S) (n : Ballot) (m : PaxosMsg T S)
      → Lt n s.storage.n_prom
      → Orders n m
      → IsStale s m
  unfolding IsStale
  Orders-IsStale s n (prepare p) h e = rw e (Lt-not_le n _ h)
  Orders-IsStale s n (accept_sync a) h e = rw e (Lt-ne n _ h)
  Orders-IsStale s n (first_accept f) h e = rw e (Lt-ne n _ h)
  Orders-IsStale s n (accept_decide a) h e = rw e (Lt-ne n _ h)
  Orders-IsStale s n (decide d) h e = rw e (Lt-ne n _ h)
  Orders-IsStale s n (accept_stopsign a) h e = rw e (Lt-ne n _ h)
  Orders-IsStale s n (decide_stopsign d) h e = rw e (Lt-ne n _ h)
  Orders-IsStale s n _ h e = absurd e

  module _ ⦃snap : Snapshot T S⦄ {n : ℕ} {c d : Cluster T S} where
    -- In every run of a cluster, two replicas that lead the same round are the same replica.
    pub leaders-differ :
        IsStart n c
        → ClusterReach c d
        → (j k : ℕ) → (d.nodes j).role ≡ Role.leader
        → (d.nodes k).role ≡ Role.leader
        → (d.nodes j).leader_state.n_leader ≡ (d.nodes k).leader_state.n_leader
        → j ≡ k
    leaders-differ h r j k lj lk e =
        let inv = Inv-reach h r in
        sym (inv.pid j)
        ∙ sym ((inv.sound j).own lj)
        ∙ ap (λ (b : Ballot). b.pid) e
        ∙ (inv.sound k).own lk
        ∙ inv.pid k

    -- In every run of a cluster, a Promise and an Accepted or AcceptedStopSign answer that was ever
    -- sent is for a round that is at most the one its sender has promised by now.
    pub answers-promised :
        IsStart n c → ClusterReach c d → (m : PaxosMessage T S) → IsSent d.wire m → IsTrue d.nodes m
    answers-promised h r m sent = All-get sent.at (Inv-reach h r).honest sent.found

    majority-voted :
        IsStart n c
        → ClusterReach c d
        → (k : ℕ) → IsEstablished (d.nodes k)
        → (d.nodes k).leader_state.majority ≤ votes (d.nodes k).leader_state
    majority-voted h r k l = elim ((Inv-reach h r).quorum k l.leads) [
      | inl e ↦ absurd (l.prepared e)
      | inr e ↦ leb→le _ _ e
    ]

    -- In every run of a cluster of `n` replicas, a leader of it past its Prepare phase has counted more
    -- than half of `n` promises, and a replica whose promise it has counted has by now promised the
    -- leader's round or a later one.
    pub leader-followed :
        IsStart n c
        → ClusterReach c d
        → (k i : ℕ) → 1 ≤ k
        → k ≤ n
        → IsEstablished (d.nodes k)
        → vote_at (d.nodes k).leader_state.promises_meta i ≡ true
        → (n < votes (d.nodes k).leader_state + votes (d.nodes k).leader_state)
          × Le (d.nodes k).leader_state.n_leader (d.nodes (suc i)).storage.n_prom
    leader-followed h r k i le le' l v =
        let inv = Inv-reach h r in
        let m = majority-voted h r k l in
        let q = (inv.counts k le le').majority in (omega arith, inv.followed k i l.leads v)

    -- In every run of a cluster of `n` replicas, for two leaders of it past their Prepare phases some
    -- replica's promise was counted by both.
    pub leaders-meet :
        IsStart n c
        → ClusterReach c d
        → (j k : ℕ) → 1 ≤ j
        → j ≤ n
        → 1 ≤ k
        → k ≤ n
        → IsEstablished (d.nodes j)
        → IsEstablished (d.nodes k)
        → (i : ℕ) × (vote_at (d.nodes j).leader_state.promises_meta i ≡ true)
          × (vote_at (d.nodes k).leader_state.promises_meta i ≡ true)
    leaders-meet h r j k a b a' b' lj lk =
        let inv = Inv-reach h r in
        let cj = inv.counts j a b in
        let ck = inv.counts k a' b' in
        let vj = majority-voted h r j lj in
        let vk = majority-voted h r k lk in
        let mj = cj.majority in
        let mk = ck.majority in
        let nj = cj.members ∙ cj.max_pid in
        let nk = ck.members ∙ ck.max_pid in
        let m =
          quorums-meet is_some is_some (d.nodes j).leader_state.promises_meta
            (d.nodes k).leader_state.promises_meta (nj ∙ sym nk) (omega arith) in
        (
          m.at,
          vote_at-get (d.nodes j).leader_state.promises_meta m.at m.left m.in_left m.holds_left,
          vote_at-get (d.nodes k).leader_state.promises_meta m.at m.right m.in_right m.holds_right,
        )

    -- In every run of a cluster, a replica whose promise a leader has counted ignores every order of
    -- a leader of an earlier round: the handler returns and the replica is as before.
    pub older_round-ignored :
        IsStart n c
        → ClusterReach c d
        → (k i : ℕ) → (d.nodes k).role ≡ Role.leader
        → vote_at (d.nodes k).leader_state.promises_meta i ≡ true
        → (b : Ballot) (m : PaxosMessage T S) → Lt b (d.nodes k).leader_state.n_leader
        → Orders b m.msg
        → handle (d.nodes (suc i)) m ≡ done (d.nodes (suc i))
    unfolding handle
    older_round-ignored h r k i l v b m lt o = dispatch-stale (d.nodes (suc i)) m.from m.msg (
        Orders-IsStale (d.nodes (suc i)) b m.msg
          (Lt_of_Lt_of_Le b _ _ lt ((Inv-reach h r).followed k i l v)) o)
