-- ===== src/Ballot.antt =====
-- omnipaxos_core/src/ballot_leader_election.rs: `Ballot` with the order that
-- `#[derive(PartialEq, Eq, PartialOrd, Ord)]` gives it, field by field in the order of declaration.
pub mod Order
use Prim.Native.Nat.{compare, Ordering}
use Prim.Native.Nat.Ordering.{lt, eq, gt}
use ik2203_distributed_coord.Prelude.{ℕ, Bool, true, false}

pub record Ballot : Type 0 where
  pub n : ℕ  -- u32
  pub priority : ℕ  -- u64
  pub pid : ℕ  -- NodeId = u64

-- `Ballot::with`
abbrev pub ballot_with : ℕ → ℕ → ℕ → Ballot
ballot_with n priority pid = record { n = n; priority = priority; pid = pid }

-- `Ballot::default()`
abbrev pub default : Ballot
default = record { n = 0; priority = 0; pid = 0 }

abbrev then : Ordering → Ordering → Ordering
then eq second = second
then first _ = first

-- the derived `cmp`
unfoldable pub cmp : Ballot → Ballot → Ordering
cmp a b = then (compare a.n b.n) (then (compare a.priority b.priority) (compare a.pid b.pid))

-- `a == b`, `a < b`, `a <= b`
unfoldable pub eq_ballot : Ballot → Ballot → Bool
unfolding cmp
eq_ballot a b = elim (cmp a b) [ eq ↦ true | _ ↦ false ]

unfoldable pub lt_ballot : Ballot → Ballot → Bool
unfolding cmp
lt_ballot a b = elim (cmp a b) [ lt ↦ true | _ ↦ false ]

unfoldable pub le_ballot : Ballot → Ballot → Bool
unfolding cmp
le_ballot a b = elim (cmp a b) [ gt ↦ false | _ ↦ true ]
