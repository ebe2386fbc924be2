-- ===== src/Ballot/Order.antt =====
-- The derived order on ballots is a strict total order whose equality is identity.
use ik2203_distributed_coord.Prelude.{◌≡◌, ◌↔◌, true, false, not, arith}
use ik2203_distributed_coord.Ballot.{Ballot, default, eq_ballot, lt_ballot, le_ballot}

abbrev pub Le : Ballot → Ballot → Type 0
Le a b = le_ballot a b ≡ true

abbrev pub Lt : Ballot → Ballot → Type 0
Lt a b = lt_ballot a b ≡ true

pub eq_ballot_iff : (a b : Ballot) → (eq_ballot a b ≡ true) ↔ (a ≡ b)
unfolding eq_ballot
eq_ballot_iff a b = ground arith

pub Le-refl : (a : Ballot) → Le a a
unfolding le_ballot
Le-refl a = ground arith

pub Le_of_eq : {a b : Ballot} → a ≡ b → Le a b
Le_of_eq {a} e = rw (← e) (Le-refl a)

pub Le-trans : (a b c : Ballot) → Le a b → Le b c → Le a c
unfolding le_ballot
Le-trans a b c h k = ground arith

Le-antisymm : (a b : Ballot) → Le a b → Le b a → a ≡ b
unfolding le_ballot
Le-antisymm a b h k = ground arith

pub Le-total : (a b : Ballot) → le_ballot a b ≡ false → Le b a
unfolding le_ballot
Le-total a b h = ground arith

pub Le_of_Lt : (a b : Ballot) → Lt a b → Le a b
unfolding le_ballot lt_ballot
Le_of_Lt a b h = ground arith

-- `<` is the negation of `>=`: the two tests never disagree.
pub lt-eq-not_le : (a b : Ballot) → lt_ballot a b ≡ not (le_ballot b a)
unfolding le_ballot lt_ballot
lt-eq-not_le a b = ground arith

Le-default : (a : Ballot) → Le default a
unfolding le_ballot
Le-default a = ground arith

pub Lt_of_Le_of_Lt : (a b c : Ballot) → Le a b → Lt b c → Lt a c
unfolding le_ballot lt_ballot
Lt_of_Le_of_Lt a b c h k = ground arith

pub Lt_of_Lt_of_Le : (a b c : Ballot) → Lt a b → Le b c → Lt a c
unfolding le_ballot lt_ballot
Lt_of_Lt_of_Le a b c h k = ground arith

pub Lt-ne : (a b : Ballot) → Lt a b → eq_ballot b a ≡ false
unfolding lt_ballot eq_ballot
Lt-ne a b h = ground arith

pub Lt-not_le : (a b : Ballot) → Lt a b → le_ballot b a ≡ false
unfolding le_ballot lt_ballot
Lt-not_le a b h = ground arith
