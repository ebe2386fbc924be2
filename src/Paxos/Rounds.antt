-- ===== src/Paxos/Rounds.antt =====
-- Rounds only grow: the promised round never decreases, entries are accepted in no later round than
-- the promised one, and a leader leads the round it promised, which is its own. The cache of the
-- latest Accepted message points at one, and a leader's cache of the AcceptDecide messages at those
-- for its followers. What a replica sends is honest, and a leader counts the promises it was sent.
pub mod Followers
pub mod Promises
pub mod Leaders
use ik2203_distributed_coord.Prelude.{
  ℕ, suc, ◌≡◌, refl, Bool, true, false, Option, some, List, [], ◌∷◌, ◌++◌, length, arith, ◌∙◌, sym,
  control, if◌then◌else◌, inl, inr, subst, All-push,
}
use ik2203_distributed_coord.Ballot.{Ballot}
use ik2203_distributed_coord.Ballot.Order.{Le, Le-refl, Le-trans, Le_of_eq}
use ik2203_distributed_coord.Messages.{PaxosMessage, Accepted, accepted}
use ik2203_distributed_coord.LeaderState.Frame.{SameVotes, SameVotes-refl, SameLeader}
use ik2203_distributed_coord.Paxos.Cached.{IsCached-append}
use ik2203_distributed_coord.LeaderState.Votes.{
  vote_at, SameSize, SameSize-trans, SameVotes-SameSize,
}
use ik2203_distributed_coord.Paxos.{Paxos, Role, Phase}
use ik2203_distributed_coord.Paxos.Frame.{
  accepted_at, is_accepted, Sent, Talks, Talks-same, Quorum, Batches, Batches-same,
}

pub follower-ne-leader : {A : Type 0} → Role.follower ≡ Role.leader → A
follower-ne-leader e = absurd (cc e)

module _ {T S : Type 0} where
  pub record IsSound (s : Paxos T S) : Type 0 where
    pub accepted_le : Le s.storage.acc_round s.storage.n_prom
    pub leads : s.role ≡ Role.leader → s.leader_state.n_leader ≡ s.storage.n_prom
    pub own : s.role ≡ Role.leader → s.leader_state.n_leader.pid ≡ s.pid
    pub cache :
        (n : Ballot) (i : ℕ)
        → s.latest_accepted_meta ≡ some (n, i)
        → accepted_at s.outgoing i ≡ true
    pub honest : Talks s
    pub batches : Batches s

  -- Where a promise that the leader `t` counts comes from: it is its own, or was counted in `s` for
  -- the same round, or is one that was heard.
  pub data Counted (H : Ballot → ℕ → Type 0) (s t : Paxos T S) (i : ℕ) : Type 0 where
    mine : suc i ≡ t.pid → Counted H s t i
    kept :
        s.role ≡ Role.leader
        → t.leader_state.n_leader ≡ s.leader_state.n_leader
        → vote_at s.leader_state.promises_meta i ≡ true
        → Counted H s t i
    heard : H t.leader_state.n_leader (suc i) → Counted H s t i

  -- One handler's step: the promised round does not decrease, soundness and the quorum are kept, and
  -- no promise is counted but those heard, by `H`.
  pub record Advance (H : Ballot → ℕ → Type 0) (s t : Paxos T S) : Type 0 where
    pub grows : Le s.storage.n_prom t.storage.n_prom
    pub pid : t.pid ≡ s.pid
    pub sound : IsSound s → IsSound t
    pub size : SameSize s.leader_state t.leader_state
    pub quorum : Quorum s → Quorum t
    pub counts :
        (i : ℕ)
        → t.role ≡ Role.leader
        → vote_at t.leader_state.promises_meta i ≡ true
        → Counted H s t i

  Counted-trans :
      {H : Ballot → ℕ → Type 0} {s t u : Paxos T S}
      → Advance H s t
      → u.pid ≡ t.pid
      → (i : ℕ) → Counted H t u i
      → Counted H s u i
  Counted-trans h p i (mine e) = mine e
  Counted-trans h p i (heard e) = heard e
  Counted-trans {H} {s} {t} {u} h p i (kept r n v) = again (h.counts i r v)
    where
      again : Counted H s t i → Counted H s u i
      again (mine e) = mine (e ∙ sym p)
      again (kept r' n' v') = kept r' (n ∙ n') v'
      again (heard e) = heard (subst (λ b. H b (suc i)) (sym n) e)

  Quorum-same :
      (s t : Paxos T S)
      → SameVotes s.leader_state t.leader_state
      → t.role ≡ s.role
      → (s.phase ≡ Phase.prepare → t.phase ≡ Phase.prepare)
      → Quorum s
      → Quorum t
  Quorum-same s t v r ph q e = elim (q (sym r ∙ e)) [
    | inl p ↦ inl (ph p)
    | inr m ↦ inr (rw (v.majority, v.promises_meta) m)
  ]

  module _ {H : Ballot → ℕ → Type 0} where
    pub Advance-refl : (s : Paxos T S) → Advance H s s
    Advance-refl s = record {
      grows = Le-refl _;
      pid = refl;
      sound = λ h. h;
      size = SameVotes-SameSize (SameVotes-refl _);
      quorum = λ h. h;
      counts = λ i r v. kept r refl v;
    }

    pub Advance-trans : {s t u : Paxos T S} → Advance H s t → Advance H t u → Advance H s u
    Advance-trans h k = record {
      grows = Le-trans _ _ _ h.grows k.grows;
      pid = k.pid ∙ h.pid;
      sound = λ x. k.sound (h.sound x);
      size = SameSize-trans h.size k.size;
      quorum = λ x. k.quorum (h.quorum x);
      counts = λ i r v. Counted-trans h k.pid i (k.counts i r v);
    }

    pub Sent-Advance : {s t : Paxos T S} → Sent s t → Advance H s t
    Sent-Advance {s} {t} h = record {
      grows = rw h.n_prom (Le-refl _);
      pid = h.pid;
      sound = λ x. record {
        accepted_le = rw (h.n_prom, h.acc_round) x.accepted_le;
        leads = λ r. cc (h.n_prom, h.votes.n_leader, x.leads (sym h.role ∙ r));
        own = λ r. rw (h.votes.n_leader, h.pid) (x.own (sym h.role ∙ r));
        cache = λ n i e. h.keeps i (x.cache n i (sym h.cached ∙ e));
        honest = h.talks x.honest;
        batches = h.batches x.batches;
      };
      size = SameVotes-SameSize h.votes;
      quorum = Quorum-same s t h.votes h.role h.phase;
      counts = λ i r v. kept (sym h.role ∙ r) h.votes.n_leader (rw (← h.votes.promises_meta) v);
    }

    -- A step that keeps the promised round, the role, the promises and the messages.
    pub Advance-local :
        (s t : Paxos T S)
        → t.storage.n_prom ≡ s.storage.n_prom
        → (IsSound s → Le t.storage.acc_round t.storage.n_prom)
        → t.role ≡ s.role
        → SameLeader s.leader_state t.leader_state
        → (Quorum s → Quorum t)
        → t.latest_accepted_meta ≡ s.latest_accepted_meta
        → t.pid ≡ s.pid
        → t.outgoing ≡ s.outgoing
        → Advance H s t
    Advance-local s t n a r v q c p o = record {
      grows = rw n (Le-refl _);
      pid = p;
      sound = λ x. record {
        accepted_le = a x;
        leads = λ e. cc (n, v.votes.n_leader, x.leads (sym r ∙ e));
        own = λ e. rw (v.votes.n_leader, p) (x.own (sym r ∙ e));
        cache = λ b i e. rw o (x.cache b i (sym c ∙ e));
        honest = Talks-same s t n p o x.honest;
        batches = Batches-same s t v.batch o x.batches;
      };
      size = SameVotes-SameSize v.votes;
      quorum = q;
      counts = λ i e k. kept (sym r ∙ e) v.votes.n_leader (rw (← v.votes.promises_meta) k);
    }

    -- A step of a replica that follows after it.
    pub Advance-follower :
        (s t : Paxos T S)
        → t.role ≡ Role.follower
        → t.leader_state ≡ s.leader_state
        → t.pid ≡ s.pid
        → Le s.storage.n_prom t.storage.n_prom
        → (IsSound s → Le t.storage.acc_round t.storage.n_prom)
        → ((n : Ballot) (i : ℕ)
            → (IsSound s → t.latest_accepted_meta ≡ some (n, i) → accepted_at t.outgoing i ≡ true))
        → (Talks s → Talks t)
        → (Batches s → Batches t)
        → Advance H s t
    Advance-follower s t r l p g a c o b = record {
      grows = g;
      pid = p;
      sound = λ x. record {
        accepted_le = a x;
        leads = λ e. follower-ne-leader (sym r ∙ e);
        own = λ e. follower-ne-leader (sym r ∙ e);
        cache = λ n i e. c n i x e;
        honest = o x.honest;
        batches = b x.batches;
      };
      size = rw l (SameVotes-SameSize (SameVotes-refl _));
      quorum = λ q e. follower-ne-leader (sym r ∙ e);
      counts = λ i e v. follower-ne-leader (sym r ∙ e);
    }

    -- A step that follows and keeps the promised round and the messages.
    pub Advance-follower_local :
        (s t : Paxos T S)
        → t.role ≡ Role.follower
        → t.leader_state ≡ s.leader_state
        → t.pid ≡ s.pid
        → t.storage.n_prom ≡ s.storage.n_prom
        → (IsSound s → Le t.storage.acc_round t.storage.n_prom)
        → t.latest_accepted_meta ≡ s.latest_accepted_meta
        → t.outgoing ≡ s.outgoing
        → Advance H s t
    Advance-follower_local s t r l p n a c o =
        Advance-follower s t r l p (rw n (Le-refl _)) a (λ b i x e. rw o (x.cache b i (sym c ∙ e)))
          (Talks-same s t n p o) (λ h. rw (l, o) h)

  accepted_at-append_length :
      (xs : List (PaxosMessage T S)) (m : PaxosMessage T S)
      → is_accepted m.msg ≡ true
      → accepted_at (xs ++ m ∷ []) (length xs) ≡ true
  unfolding accepted_at
  accepted_at-append_length [] m h = h
  accepted_at-append_length (x ∷ xs) m h = accepted_at-append_length xs m h

  module _ {H : Ballot → ℕ → Type 0} where
    -- A step of a follower that pushes an Accepted of a promised round and caches its index.
    pub Advance-pushed :
        (s t : Paxos T S) (n : Ballot) (m : PaxosMessage T S) (a : Accepted)
        → t.role ≡ Role.follower
        → t.leader_state ≡ s.leader_state
        → t.pid ≡ s.pid
        → t.storage.n_prom ≡ s.storage.n_prom
        → (IsSound s → Le t.storage.acc_round t.storage.n_prom)
        → t.latest_accepted_meta ≡ some (n, length s.outgoing)
        → t.outgoing ≡ s.outgoing ++ m ∷ []
        → m.msg ≡ accepted a
        → m.from ≡ s.pid
        → s.storage.n_prom ≡ a.n
        → Advance H s t
    Advance-pushed s t n m a r ls p q l c o k f le =
        Advance-follower s t r ls p (rw q (Le-refl _)) l
          (λ _ i x e.
            let j : i ≡ length s.outgoing = ground (arith, sym c ∙ e) in
            rw (o, j) (accepted_at-append_length s.outgoing m (rw k refl)))
          (λ h. rw (o, p, q) (All-push h (record { from = f; claim = rw k (Le_of_eq (sym le)) })))
          (λ h. rw (o, ls) (IsCached-append s.outgoing (m ∷ []) s.leader_state.batch_accept_meta h))

    pub Advance-if :
        {s t u : Paxos T S} (b : Bool)
        → (b ≡ true → Advance H s t)
        → (b ≡ false → Advance H s u)
        → Advance H s (if b then t else u)
    unfolding control
    Advance-if true h k = h refl
    Advance-if false h k = k refl

    -- What may be heard may be more.
    pub Advance-weaken :
        {H' : Ballot → ℕ → Type 0} {s t : Paxos T S}
        → ((n : Ballot) (q : ℕ) → H n q → H' n q)
        → Advance H s t
        → Advance H' s t
    Advance-weaken {H'} {s} {t} f h = record {
      grows = h.grows;
      pid = h.pid;
      sound = h.sound;
      size = h.size;
      quorum = h.quorum;
      counts = λ i r v. again i (h.counts i r v);
    }
      where
        again : (i : ℕ) → Counted H s t i → Counted H' s t i
        again i (mine e) = mine e
        again i (kept r n v) = kept r n v
        again i (heard e) = heard (f _ _ e)
