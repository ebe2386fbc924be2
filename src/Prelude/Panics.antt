-- ===== src/Prelude/Panics.antt =====
-- Code that may panic: the checked arithmetic of a debug build, `unwrap`, `expect`, slices.
use Prim.Native.Nat.{ℕ, ◌+◌, ◌-◌, ◌^◌, ◌<◌, ◌≤◌}
use mathlib.Core.Path.{◌≡◌, refl, subst}
use mathlib.Core.Logic.{◌⊎◌, inl, inr}
use mathlib.Core.Bool.{Bool, true, false}
use mathlib.Core.Option.{Option, none, some}
use mathlib.Core.List.{List}
use native.Mathlib.Omega.{arith}
use ik2203_distributed_coord.Prelude.Tests.{ltb, leb, if◌then◌else◌, lt→ltb, le→leb}
use ik2203_distributed_coord.Prelude.Lists.{get_elem?, set, length}

pub data Outcome {ℓ} (A : Type ℓ) : Type ℓ where
  done : A → Outcome A
  panic : Outcome A

infixl 5 ◌>>=◌
unfoldable pub ◌>>=◌ {ℓ κ} : {A : Type ℓ} {B : Type κ} → Outcome A → (A → Outcome B) → Outcome B
done a >>= f = f a
panic >>= f = panic

-- Proofs that split on the tests and the binds of some code name this on their `unfolding` line.
unfoldable pub control : Unit {0}
unfolding ◌>>=◌ if◌then◌else◌
control = tt

-- u64 and u32 arithmetic with the overflow checks of a debug build
abbrev pub u64_mod : ℕ
u64_mod = 2 ^ 64

abbrev pub u32_mod : ℕ
u32_mod = 2 ^ 32

abbrev pub add_u64 : ℕ → ℕ → Outcome ℕ
add_u64 a b = if ltb (a + b) u64_mod then done (a + b) else panic

abbrev pub sub_u64 : ℕ → ℕ → Outcome ℕ
sub_u64 a b = if leb b a then done (a - b) else panic

abbrev pub add_u32 : ℕ → ℕ → Outcome ℕ
add_u32 a b = if ltb (a + b) u32_mod then done (a + b) else panic

-- `o.unwrap()`, `o.expect(..)`
abbrev pub unwrap {ℓ} : {A : Type ℓ} → Option A → Outcome A
unwrap none = panic
unwrap (some a) = done a

-- `v[i]` and `v[i] = x`
abbrev pub index {ℓ} : {A : Type ℓ} → List A → ℕ → Outcome A
index xs i = unwrap (get_elem? xs i)

abbrev pub set_index {ℓ} : {A : Type ℓ} → List A → ℕ → A → Outcome (List A)
set_index xs i v = if ltb i (length xs) then done (set xs i v) else panic

-- What holds of the result whenever the code returns.
pub record Ensures {A : Type 0} (P : A → Type 0) (m : Outcome A) : Type 0 where
  pub at : (a : A) → m ≡ done a → P a

-- The code returns, and its result satisfies `P`.
pub record Returns {A : Type 0} (P : A → Type 0) (m : Outcome A) : Type 0 where
  pub value : A
  pub runs : m ≡ done value
  pub meets : P value

module _ {A : Type 0} {P : A → Type 0} where
  pub Ensures-done : {a : A} → P a → Ensures P (done a)
  Ensures-done {a} h = record { at = λ b e. subst P (cc e) h }

  pub Ensures-panic : Ensures P panic
  Ensures-panic = record { at = λ b e. absurd (cc e) }

  pub Ensures-if :
      (b : Bool) {m n : Outcome A}
      → (b ≡ true → Ensures P m)
      → (b ≡ false → Ensures P n)
      → Ensures P (if b then m else n)
  unfolding control
  Ensures-if true f g = f refl
  Ensures-if false f g = g refl

  pub Ensures-weaken :
      {Q : A → Type 0} {m : Outcome A} → Ensures Q m → ((a : A) → Q a → P a) → Ensures P m
  Ensures-weaken h f = record { at = λ a e. f a (h.at a e) }

  pub Returns-done : {a : A} → P a → Returns P (done a)
  Returns-done {a} h = record { value = a; runs = refl; meets = h }

module _ {A B : Type 0} {P : A → Type 0} {Q : B → Type 0} where
  pub Ensures-bind :
      {m : Outcome A} {f : A → Outcome B}
      → Ensures P m
      → ((a : A) → P a → Ensures Q (f a))
      → Ensures Q (m >>= f)
  unfolding control
  Ensures-bind {m = done a} h k = k a (h.at a refl)
  Ensures-bind {m = panic} h k = record { at = λ b e. absurd (cc e) }

  pub Returns-bind :
      {m : Outcome A} {f : A → Outcome B}
      → Returns P m
      → ((a : A) → P a → Returns Q (f a))
      → Returns Q (m >>= f)
  unfolding control
  Returns-bind {m} {f} h k =
      let r = k h.value h.meets in
      record { value = r.value; runs = rw h.runs r.runs; meets = r.meets }

-- A step whose result is not looked at.
pub Ensures-bind_any :
    {A B : Type 0} {Q : B → Type 0} (m : Outcome A) {f : A → Outcome B}
    → ((a : A) → m ≡ done a → Ensures Q (f a))
    → Ensures Q (m >>= f)
unfolding control
Ensures-bind_any (done a) k = k a refl
Ensures-bind_any panic k = record { at = λ b e. absurd (cc e) }

pub add_u64-runs : (a b : ℕ) → a + b < u64_mod → add_u64 a b ≡ done (a + b)
unfolding control
add_u64-runs a b h = rw (lt→ltb _ _ h)

pub sub_u64-runs : (a b : ℕ) → b ≤ a → sub_u64 a b ≡ done (a - b)
unfolding control
sub_u64-runs a b h = rw (le→leb _ _ h)

pub index-eq-done {ℓ} :
    {A : Type ℓ} (xs : List A) (i : ℕ) {a : A} → index xs i ≡ done a → get_elem? xs i ≡ some a
index-eq-done xs i h = ground arith

pub Outcome-cases {ℓ} : {A : Type ℓ} (m : Outcome A) → (m ≡ panic) ⊎ ((a : A) × (m ≡ done a))
Outcome-cases panic = inl refl
Outcome-cases (done a) = inr (a, refl)

-- Inversion of a bind that returned.
pub >>=-eq-done {ℓ κ} :
    {A : Type ℓ} {B : Type κ} (m : Outcome A) (f : A → Outcome B) {b : B}
    → (m >>= f) ≡ done b
    → (a : A) × (m ≡ done a) × (f a ≡ done b)
unfolding control
>>=-eq-done (done a) f h = (a, refl, h)
>>=-eq-done panic f h = absurd (cc h)

pub Ensures-and :
    {A : Type 0} {P Q : A → Type 0} {m : Outcome A}
    → Ensures P m
    → Ensures Q m
    → Ensures (λ a. P a × Q a) m
Ensures-and h k = record { at = λ a e. (h.at a e, k.at a e) }
