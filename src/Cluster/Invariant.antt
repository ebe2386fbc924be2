-- ===== src/Cluster/Invariant.antt =====
-- What holds of the replicas and of the messages between them in every run of a cluster.
use ik2203_distributed_coord.Prelude.{
  ℕ, suc, ◌≡◌, ◌≤◌, ◌/◌, ◌+◌, refl, sym, ◌∙◌, true, inl, inr, List, ◌++◌, length, All, all_nil,
  All-append, All-get, All-weaken, control, ◌==◌, ==_iff, Bool-cases, subst, ap, Ensures,
  Ensures-done, Ensures-bind_any, none, done, arith,
}
use ik2203_distributed_coord.Ballot.{Ballot}
use ik2203_distributed_coord.Ballot.Order.{Le, Le-refl, Le-trans, Le_of_eq}
use ik2203_distributed_coord.Storage.{Snapshot}
use ik2203_distributed_coord.Storage.Memory.{MemoryStorage}
use ik2203_distributed_coord.Messages.{PaxosMsg, PaxosMessage, promise}
use ik2203_distributed_coord.LeaderState.Votes.{vote_at, length-replicate}
use ik2203_distributed_coord.LeaderState.{leader_state_with}
use ik2203_distributed_coord.Paxos.{Paxos, Role, get_outgoing_msgs}
use ik2203_distributed_coord.Paxos.Handle.{
  SequencePaxosConfig, sequence_paxos_with, with_leader, new_replica, max_pid_of,
}
use ik2203_distributed_coord.Paxos.Frame.{Claims, Claims-later, IsHonest, Quorum}
use ik2203_distributed_coord.Paxos.Rounds.{IsSound, Counted, mine, kept, heard, follower-ne-leader}
use ik2203_distributed_coord.Paxos.Rounds.Leaders.{Promised}
use ik2203_distributed_coord.Paxos.Reach.{
  Step, receive, fetch, Hears, Step-Advance, sequence_paxos_with-IsSound,
}
use ik2203_distributed_coord.Cluster.{
  Cluster, update, IsStart, Received, emits, ClusterStep, step, ClusterReach, start, later,
}

-- What holds of every member of a family and of the new one holds after the update.
update-each :
    {A : Type 0} (P : ℕ → A → Type 0) (f : ℕ → A) (k : ℕ) (a : A)
    → P k a
    → ((j : ℕ) → P j (f j))
    → (j : ℕ) → P j (update f k a j)
unfolding control
update-each P f k a p h j = elim (Bool-cases (k == j)) [
  | inl e ↦ rw e (subst (λ i. P i a) ((==_iff k j).0 e) p)
  | inr e ↦ rw e (h j)
]

module _ {T S : Type 0} where
  -- What the message says of its sender's round holds of the sender now.
  abbrev pub IsTrue : (ℕ → Paxos T S) → PaxosMessage T S → Type 0
  IsTrue f m = Claims (f m.from).storage.n_prom m.msg

  -- Each replica whose promise `s` counts has promised at least the round that `s` leads.
  abbrev pub Followed : (ℕ → Paxos T S) → Paxos T S → Type 0
  Followed f s =
      (i : ℕ)
      → s.role ≡ Role.leader
      → vote_at s.leader_state.promises_meta i ≡ true
      → Le s.leader_state.n_leader (f (suc i)).storage.n_prom

  -- The replica counts `n` replicas.
  pub record Counts (n : ℕ) (s : Paxos T S) : Type 0 where
    pub members : length s.leader_state.promises_meta ≡ s.leader_state.max_pid
    pub max_pid : s.leader_state.max_pid ≡ n
    pub majority : s.leader_state.majority ≡ n / 2 + 1

  pub record Inv (n : ℕ) (c : Cluster T S) : Type 0 where
    pub pid : (k : ℕ) → (c.nodes k).pid ≡ k
    pub sound : (k : ℕ) → IsSound (c.nodes k)
    pub quorum : (k : ℕ) → Quorum (c.nodes k)
    pub counts : (k : ℕ) → 1 ≤ k → k ≤ n → Counts n (c.nodes k)
    pub followed : (k : ℕ) → Followed c.nodes (c.nodes k)
    pub honest : All (IsTrue c.nodes) c.wire

  IsTrue-later :
      (f g : ℕ → Paxos T S)
      → ((j : ℕ) → Le (f j).storage.n_prom (g j).storage.n_prom)
      → (m : PaxosMessage T S) → IsTrue f m
      → IsTrue g m
  IsTrue-later f g h m x = Claims-later _ _ (h m.from) m.msg x

  IsHonest-IsTrue :
      (f : ℕ → Paxos T S) (k : ℕ)
      → (m : PaxosMessage T S) → IsHonest k (f k).storage.n_prom m
      → IsTrue f m
  IsHonest-IsTrue f k m h = rw h.from h.claim

  -- A true promise is heard of a replica that has promised the round.
  Promised-Le :
      (f : ℕ → Paxos T S) (x : PaxosMsg T S) (from : ℕ) (n : Ballot) (q : ℕ)
      → Claims (f from).storage.n_prom x
      → Promised x from n q
      → Le n (f q).storage.n_prom
  Promised-Le f (promise p) from n q c (e, r) = rw (← e, ← r) c
  Promised-Le f _ from n q c h = absurd h

  -- A new replica without a leader: a follower with its own pid that counts its peers and itself.
  record IsNew (c : SequencePaxosConfig) (s : Paxos T S) : Type 0 where
    pid : s.pid ≡ c.pid
    role : s.role ≡ Role.follower
    counts : (n : ℕ) → max_pid_of c.pid c.peers ≡ done n → suc (length c.peers) ≡ n → Counts n s

  sequence_paxos_with-IsNew :
      (c : SequencePaxosConfig) (st : MemoryStorage T S)
      → c.skip_prepare_use_leader ≡ none
      → Ensures (IsNew c) (sequence_paxos_with c st)
  unfolding sequence_paxos_with with_leader new_replica leader_state_with
  sequence_paxos_with-IsNew c st e = Ensures-bind_any _ λ m q. rw e (
      Ensures-done (record {
        pid = refl;
        role = refl;
        counts = λ n h l. record {
          members = length-replicate m none;
          max_pid = ground (arith, sym q ∙ h);
          majority = ap (λ x. x / 2 + 1) (omega (arith, l));
        };
      }))

  module _ ⦃snap : Snapshot T S⦄ where
    Hears-Le :
        (f : ℕ → Paxos T S) (wire : List (PaxosMessage T S)) {s t : Paxos T S} (st : Step s t)
        (n : Ballot) (q : ℕ)
        → All (IsTrue f) wire
        → Received wire st
        → Hears st n q
        → Le n (f q).storage.n_prom
    Hears-Le f wire (receive m e) n q h (sent, _) p =
        Promised-Le f m.msg m.from n q (All-get sent.at h sent.found) p
    Hears-Le f wire _ n q h r p = absurd p

    emits-IsTrue :
        (f : ℕ → Paxos T S) (k : ℕ) {t : Paxos T S} (st : Step (f k) t)
        → (f k).pid ≡ k
        → IsSound (f k)
        → All (IsTrue f) (emits st)
    unfolding get_outgoing_msgs
    emits-IsTrue f k fetch p h =
        All-weaken (IsHonest-IsTrue f k)
          (subst (λ i. All (IsHonest i (f k).storage.n_prom) (f k).outgoing) p h.honest)
    emits-IsTrue f k _ p h = all_nil

    -- A step of replica `k`.
    module _ {n : ℕ} {c : Cluster T S} (inv : Inv n c) (k : ℕ) {t : Paxos T S}
        (st : Step (c.nodes k) t) (r : Received c.wire st) where
      abbrev after : ℕ → Paxos T S
      after = update c.nodes k t

      after-grows : (j : ℕ) → Le (c.nodes j).storage.n_prom (after j).storage.n_prom
      after-grows =
          update-each (λ j s. Le (c.nodes j).storage.n_prom s.storage.n_prom) c.nodes k t
            (Step-Advance st).grows (λ j. Le-refl _)

      after_self : after k ≡ t
      unfolding control
      after_self = rw ((==_iff k k).1 refl) refl

      -- What `t` counts is its own promise, was counted before, or is heard of a true message.
      counted-Le :
          (i : ℕ)
          → t.role ≡ Role.leader
          → Counted (Hears st) (c.nodes k) t i
          → Le t.leader_state.n_leader (after (suc i)).storage.n_prom
      counted-Le i lead (mine e) =
          let a = Step-Advance st in
          let q : suc i ≡ k = e ∙ a.pid ∙ inv.pid k in
          rw (q, after_self) (Le_of_eq ((a.sound (inv.sound k)).leads lead))
      counted-Le i lead (kept r' e v) =
          subst (λ b. Le b (after (suc i)).storage.n_prom) (sym e)
            (Le-trans _ _ _ (inv.followed k i r' v) (after-grows (suc i)))
      counted-Le i lead (heard h) =
          Le-trans _ _ _ (Hears-Le c.nodes c.wire st _ (suc i) inv.honest r h) (after-grows (suc i))

      Inv-moved : Inv n (record { nodes = after; wire = c.wire ++ emits st })
      Inv-moved =
          let a = Step-Advance st in
          record {
            pid = update-each (λ j s. s.pid ≡ j) c.nodes k t (a.pid ∙ inv.pid k) inv.pid;
            sound = update-each (λ j s. IsSound s) c.nodes k t (a.sound (inv.sound k)) inv.sound;
            quorum = update-each (λ j s. Quorum s) c.nodes k t (a.quorum (inv.quorum k)) inv.quorum;
            counts =
                update-each (λ j s. 1 ≤ j → j ≤ n → Counts n s) c.nodes k t
                  (λ l h.
                    let x = inv.counts k l h in
                    record {
                      members = a.size.members x.members;
                      max_pid = a.size.max_pid ∙ x.max_pid;
                      majority = a.size.majority ∙ x.majority;
                    })
                  inv.counts;
            followed =
                update-each (λ j s. Followed after s) c.nodes k t
                  (λ i lead v. counted-Le i lead (a.counts i lead v))
                  (λ j i lead v. Le-trans _ _ _ (inv.followed j i lead v) (after-grows (suc i)));
            honest =
                All-weaken (IsTrue-later c.nodes after after-grows)
                  (All-append inv.honest (emits-IsTrue c.nodes k st (inv.pid k) (inv.sound k)));
          }

    pub Inv-step : {n : ℕ} {c d : Cluster T S} → Inv n c → ClusterStep c d → Inv n d
    Inv-step inv (step k st r) = Inv-moved inv k st r

  Inv-start : {n : ℕ} {c : Cluster T S} → IsStart n c → Inv n c
  Inv-start {n} {c} h =
      let new : (k : ℕ) → IsNew (h.config k) (c.nodes k) = λ k.
        (sequence_paxos_with-IsNew (h.config k) (h.storage k) (h.leaderless k)).at (c.nodes k)
          (h.node k) in
      record {
        pid = λ k. (new k).pid ∙ h.pid k;
        sound = λ k.
            (sequence_paxos_with-IsSound (h.config k) (h.storage k)
                (rw (h.leaderless k) (h.fresh k))).at
              (c.nodes k) (h.node k);
        quorum = λ k e. follower-ne-leader (sym (new k).role ∙ e);
        counts = λ k l u. (new k).counts n (h.max_pid k l u) (h.peers k l u);
        followed = λ k i e v. follower-ne-leader (sym (new k).role ∙ e);
        honest = rw h.silent all_nil;
      }

  -- In every run of a new cluster.
  pub Inv-reach :
      ⦃snap : Snapshot T S⦄ {n : ℕ} {c d : Cluster T S} → IsStart n c → ClusterReach c d → Inv n d
  Inv-reach h start = Inv-start h
  Inv-reach h (later r st) = Inv-step (Inv-reach h r) st
