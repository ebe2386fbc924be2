-- ===== src/Paxos/Cached.antt =====
-- omnipaxos_core/src/sequence_paxos/mod.rs and leader.rs with the feature batch_accept: what the
-- leader's cache of the latest AcceptDecide messages points at in `outgoing`.
use ik2203_distributed_coord.Prelude.{
  ℕ, zero, suc, ◌≡◌, refl, ◌⊎◌, inl, inr, Option, none, some, List, [], ◌∷◌, ◌++◌, get_elem?, set,
  replicate, length, ap, arith, get_elem?-append_length,
}
use ik2203_distributed_coord.Ballot.{Ballot}
use ik2203_distributed_coord.Messages.{PaxosMessage, AcceptDecide, accept_decide}

get_elem?-replicate_none :
    (k j : ℕ) (x : Ballot × ℕ) {A : Type 0} → get_elem? (replicate k none) j ≡ some (some x) → A
get_elem?-replicate_none zero j x h = absurd (cc h)
get_elem?-replicate_none (suc k) zero x h = absurd (cc h)
get_elem?-replicate_none (suc k) (suc j) x h = get_elem?-replicate_none k j x h

get_elem?-set_cases :
    (xs : List (Option (Ballot × ℕ))) (k : ℕ) (v : Option (Ballot × ℕ)) (j : ℕ)
    (y : Option (Ballot × ℕ))
    → get_elem? (set xs k v) j ≡ some y
    → (get_elem? xs j ≡ some y) ⊎ ((j ≡ k) × (v ≡ y))
get_elem?-set_cases [] k v j y h = inl h
get_elem?-set_cases (x ∷ xs) zero v zero y h = inr (refl, ground (arith, h))
get_elem?-set_cases (x ∷ xs) zero v (suc j) y h = inl h
get_elem?-set_cases (x ∷ xs) (suc k) v zero y h = inl h
get_elem?-set_cases (x ∷ xs) (suc k) v (suc j) y h = elim (get_elem?-set_cases xs k v j y h) [
  | inl e ↦ inl e
  | inr (e, q) ↦ inr (ap suc e, q)
]

module _ {T S : Type 0} where
  -- The message is an AcceptDecide of the round `n` for the replica `to`.
  pub record IsAcceptDecide (to : ℕ) (n : Ballot) (m : PaxosMessage T S) : Type 0 where
    pub to_eq : m.to ≡ to
    pub acc : AcceptDecide T
    pub msg_eq : m.msg ≡ accept_decide acc
    pub n_eq : acc.n ≡ n

  pub record Points (xs : List (PaxosMessage T S)) (to : ℕ) (n : Ballot) (i : ℕ) : Type 0 where
    pub message : PaxosMessage T S
    pub found : get_elem? xs i ≡ some message
    pub decides : IsAcceptDecide to n message

  Points-later :
      {to : ℕ} {n : Ballot} {x : PaxosMessage T S} {xs : List (PaxosMessage T S)} {i : ℕ}
      → Points xs to n i
      → Points (x ∷ xs) to n (suc i)
  Points-later h = record { message = h.message; found = h.found; decides = h.decides }

  Points-earlier :
      {to : ℕ} {n : Ballot} {x : PaxosMessage T S} {xs : List (PaxosMessage T S)} {i : ℕ}
      → Points (x ∷ xs) to n (suc i)
      → Points xs to n i
  Points-earlier h = record { message = h.message; found = h.found; decides = h.decides }

  Points-append :
      (xs ys : List (PaxosMessage T S)) (to : ℕ) (n : Ballot) (i : ℕ)
      → Points xs to n i
      → Points (xs ++ ys) to n i
  Points-append [] ys to n i h = absurd (cc h.found)
  Points-append (x ∷ xs) ys to n zero h = record {
    message = h.message;
    found = h.found;
    decides = h.decides;
  }
  Points-append (x ∷ xs) ys to n (suc i) h =
      Points-later (Points-append xs ys to n i (Points-earlier h))

  -- A message is overwritten by one that is an AcceptDecide wherever it was one.
  pub Points-set :
      (xs : List (PaxosMessage T S)) (j : ℕ) (m m' : PaxosMessage T S)
      → get_elem? xs j ≡ some m
      → ((to : ℕ) (n : Ballot) → IsAcceptDecide to n m → IsAcceptDecide to n m')
      → (to : ℕ) (n : Ballot) (i : ℕ) → Points xs to n i
      → Points (set xs j m') to n i
  Points-set [] j m m' g f to n i h = absurd (cc g)
  Points-set (x ∷ xs) zero m m' g f to n zero h =
      let e : h.message ≡ m = ground (arith, h.found) in
      record { message = m'; found = refl; decides = f to n (rw (← e) h.decides) }
  Points-set (x ∷ xs) zero m m' g f to n (suc i) h = Points-later (Points-earlier h)
  Points-set (x ∷ xs) (suc j) m m' g f to n zero h = record {
    message = h.message;
    found = h.found;
    decides = h.decides;
  }
  Points-set (x ∷ xs) (suc j) m m' g f to n (suc i) h =
      Points-later (Points-set xs j m m' g f to n i (Points-earlier h))

  -- What is cached for a replica points at an AcceptDecide for it, of the round cached.
  pub record IsCached (outgoing : List (PaxosMessage T S)) (batch : List (Option (Ballot × ℕ)))
      : Type 0 where
    pub at :
        (j : ℕ) (n : Ballot) (i : ℕ)
        → get_elem? batch j ≡ some (some (n, i))
        → Points outgoing (suc j) n i

  pub IsCached-replicate :
      (outgoing : List (PaxosMessage T S)) (k : ℕ) → IsCached outgoing (replicate k none)
  IsCached-replicate outgoing k = record { at = λ j n i h. get_elem?-replicate_none k j (n, i) h }

  pub IsCached-append :
      (outgoing ys : List (PaxosMessage T S)) (batch : List (Option (Ballot × ℕ)))
      → IsCached outgoing batch
      → IsCached (outgoing ++ ys) batch
  IsCached-append outgoing ys batch h = record {
    at = λ j n i e. Points-append outgoing ys (suc j) n i (h.at j n i e);
  }

  -- A cleared cache.
  pub IsCached-cleared :
      (outgoing : List (PaxosMessage T S)) (batch : List (Option (Ballot × ℕ))) (k : ℕ)
      → IsCached outgoing batch
      → IsCached outgoing (set batch k none)
  IsCached-cleared outgoing batch k h = record {
    at = λ j n i e. elim (get_elem?-set_cases batch k none j (some (n, i)) e) [
      | inl q ↦ h.at j n i q
      | inr (_, q) ↦ absurd (cc q)
    ];
  }

  -- An AcceptDecide that is pushed and cached.
  pub IsCached-pushed :
      (outgoing : List (PaxosMessage T S)) (batch : List (Option (Ballot × ℕ))) (k : ℕ) (b : Ballot)
      (m : PaxosMessage T S)
      → IsAcceptDecide (suc k) b m
      → IsCached outgoing batch
      → IsCached (outgoing ++ m ∷ []) (set batch k (some (b, length outgoing)))
  IsCached-pushed outgoing batch k b m d h = record {
    at = λ j n i e. elim (get_elem?-set_cases batch k _ j (some (n, i)) e) [
      | inl q ↦ Points-append outgoing (m ∷ []) (suc j) n i (h.at j n i q)
      | inr (r, q) ↦
          let l : length outgoing ≡ i = ground (arith, q) in
          let c : b ≡ n = ground (arith, q) in
          rw (r, ← c, ← l)
            (record { message = m; found = get_elem?-append_length outgoing m; decides = d })
    ];
  }
