-- ===== src/Paxos/Gives.antt =====
-- omnipaxos_core/src/sequence_paxos/leader.rs: that entries are among the messages to be sent.
use ik2203_distributed_coord.Prelude.{
  ℕ, zero, suc, ◌≡◌, refl, some, List, [], ◌∷◌, ◌++◌, get_elem?, set, arith, get_elem?-append,
}
use ik2203_distributed_coord.Ballot.{Ballot}
use ik2203_distributed_coord.Messages.{PaxosMessage, AcceptDecide, accept_decide}

module _ {T S : Type 0} (es : List T) where
  -- The message is an AcceptDecide of the round `n` for the replica `to` whose last entries are `es`.
  pub record IsGiven (to : ℕ) (n : Ballot) (m : PaxosMessage T S) : Type 0 where
    pub to_eq : m.to ≡ to
    pub acc : AcceptDecide T
    pub msg_eq : m.msg ≡ accept_decide acc
    pub n_eq : acc.n ≡ n
    pub before : List T
    pub entries : acc.entries ≡ before ++ es

  -- Such a message is to be sent.
  pub record Gives (n : Ballot) (xs : List (PaxosMessage T S)) (to : ℕ) : Type 0 where
    pub at : ℕ
    pub message : PaxosMessage T S
    pub found : get_elem? xs at ≡ some message
    pub given : IsGiven to n message

  Gives-later :
      {n : Ballot} {x : PaxosMessage T S} {xs : List (PaxosMessage T S)} {to : ℕ}
      → Gives n xs to
      → Gives n (x ∷ xs) to
  Gives-later h = record { at = suc h.at; message = h.message; found = h.found; given = h.given }

  Gives-first :
      {n : Ballot} {x : PaxosMessage T S} {xs : List (PaxosMessage T S)} {to : ℕ}
      → IsGiven to n x
      → Gives n (x ∷ xs) to
  Gives-first h = record { at = 0; message = _; found = refl; given = h }

  pub Gives-append :
      (n : Ballot) (xs ys : List (PaxosMessage T S)) (to : ℕ)
      → Gives n xs to
      → Gives n (xs ++ ys) to
  Gives-append n xs ys to h = record {
    at = h.at;
    message = h.message;
    found = get_elem?-append xs ys h.at h.message h.found;
    given = h.given;
  }

  pub Gives-set :
      (n : Ballot) (to : ℕ) (xs : List (PaxosMessage T S)) (j : ℕ) (m m' : PaxosMessage T S)
      → get_elem? xs j ≡ some m
      → (IsGiven to n m → IsGiven to n m')
      → (i : ℕ) (x : PaxosMessage T S) → get_elem? xs i ≡ some x
      → IsGiven to n x
      → Gives n (set xs j m') to
  Gives-set n to [] j m m' g f i x e h = absurd (cc g)
  Gives-set n to (y ∷ xs) zero m m' g f zero x e h =
      let q : x ≡ m = ground (arith, e, g) in Gives-first (f (rw (← q) h))
  Gives-set n to (y ∷ xs) zero m m' g f (suc i) x e h =
      Gives-later (record { at = i; message = x; found = e; given = h })
  Gives-set n to (y ∷ xs) (suc j) m m' g f zero x e h =
      let q : x ≡ y = ground (arith, e) in Gives-first (rw (← q) h)
  Gives-set n to (y ∷ xs) (suc j) m m' g f (suc i) x e h =
      Gives-later (Gives-set n to xs j m m' g f i x e h)
