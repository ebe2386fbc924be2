-- ===== src/Frame/Ends.antt =====
-- ddbb_libs/src/frame.rs: how much the readers of a cursor leave of the bytes.
use ik2203_distributed_coord.Prelude.{
  ℕ, zero, suc, ◌+◌, ◌≤◌, ◌≡◌, ◌≢◌, arith, List, [], ◌∷◌, length, length-drop, ltb, ◌==◌, ◌&&◌,
  Option, some, Bool, true, false, Bool-cases, if◌then◌else◌, control, inl, inr, Option-cases, ap,
}
use mathlib.Core.Path.{subst}
use ik2203_distributed_coord.Frame.{Frame}
use ik2203_distributed_coord.Frame.Cursor.{
  Error, Parsed, parsed, failed, panicked, out_of_fuel, Parser, bind, ◌>>=◌, pure, peek_u8, skip,
  find_line, get_line, get_decimal,
}
use ik2203_distributed_coord.Frame.Parser.{check_times, parse_times}

abbrev pub Left : {A : Type 0} → ℕ → Parsed A → Type 0
Left n (parsed a rest) = length rest ≤ n
Left n (failed e) = Unit
Left n panicked = Unit
Left n out_of_fuel = ⊥

-- The reader ended, and at most `n` bytes are left.
pub record Ends {A : Type 0} (n : ℕ) (m : Parsed A) : Type 0 where
  pub at : Left n m

module _ {A : Type 0} {n : ℕ} where
  pub Ends-parsed : {a : A} {rest : List ℕ} → length rest ≤ n → Ends n (parsed a rest)
  Ends-parsed h = record { at = h }

  pub Ends-failed : {e : Error} → Ends {A = A} n (failed e)
  Ends-failed = record { at = tt }

  pub Ends-panicked : Ends {A = A} n panicked
  Ends-panicked = record { at = tt }

  pub Ends-ne : {m : Parsed A} → Ends n m → m ≢ out_of_fuel
  Ends-ne h e = subst (Left n) e h.at

  pub Ends-le : {k : ℕ} (m : Parsed A) → k ≤ n → Ends k m → Ends n m
  Ends-le (parsed a rest) h e = Ends-parsed (omega (arith, e.at))
  Ends-le (failed x) h e = Ends-failed
  Ends-le panicked h e = Ends-panicked
  Ends-le out_of_fuel h e = absurd e.at

  pub Ends-if :
      (b : Bool) (p q : Parser A) {c : List ℕ}
      → Ends n (p c)
      → Ends n (q c)
      → Ends n ((if b then p else q) c)
  unfolding control
  Ends-if true p q h k = h
  Ends-if false p q h k = k

  pub Ends-test : (b : Bool) {l m : Parsed A} → Ends n l → Ends n m → Ends n (if b then l else m)
  unfolding control
  Ends-test true h k = h
  Ends-test false h k = k

module _ {A B : Type 0} {n k : ℕ} where
  pub Ends-bind :
      (m : Parsed A) {f : A → Parser B}
      → Ends k m
      → ((a : A) (rest : List ℕ) → length rest ≤ k → Ends n (f a rest))
      → Ends n (bind m f)
  unfolding bind
  Ends-bind (parsed a rest) h g = g a rest h.at
  Ends-bind (failed e) h g = Ends-failed
  Ends-bind panicked h g = Ends-panicked
  Ends-bind out_of_fuel h g = absurd h.at

length-find_line :
    (c line rest : List ℕ) → find_line c ≡ some (line, rest) → length rest + 2 ≤ length c
unfolding find_line control
length-find_line [] line rest h = absurd (cc h)
length-find_line (a ∷ []) line rest h = absurd (cc h)
length-find_line (a ∷ (b ∷ s)) line rest h = elim (Bool-cases (a == 13 && b == 10)) [
  | inl e ↦ let q : s ≡ rest = cc (h, e) in omega (arith, ap (length {A = ℕ}) q)
  | inr e ↦ elim (Option-cases (find_line (b ∷ s))) [
    | inl z ↦ absurd (cc (h, e, z))
    | inr ((line', rest'), z) ↦
        let q : rest' ≡ rest = cc (h, e, z) in
        let k = length-find_line (b ∷ s) line' rest' z in omega (arith, ap (length {A = ℕ}) q)
  ]
]

pub peek_u8-Ends : (c : List ℕ) → Ends (length c) (peek_u8 c)
unfolding peek_u8
peek_u8-Ends [] = Ends-failed
peek_u8-Ends (a ∷ c) = Ends-parsed (omega arith)

pub skip-Ends : (n : ℕ) (c : List ℕ) → Ends (length c) (skip n c)
unfolding skip control
skip-Ends n c = elim (Bool-cases (ltb (length c) n)) [
  | inl e ↦ rw e Ends-failed
  | inr e ↦ rw e (Ends-parsed (omega (arith, length-drop n c)))
]

pub get_line-Ends : (c : List ℕ) → Ends (length c) (get_line c)
unfolding get_line
get_line-Ends c = elim (Option-cases (find_line c)) [
  | inl e ↦ rw e Ends-failed
  | inr ((line, rest), e) ↦ rw e (Ends-parsed (omega (arith, length-find_line c line rest e)))
]

pub get_decimal-Ends :
    (atoi : List ℕ → Option ℕ) (c : List ℕ) → Ends (length c) (get_decimal atoi c)
unfolding get_decimal
get_decimal-Ends atoi c = Ends-bind _ (get_line-Ends c) (λ line rest h.
    elim (Option-cases (atoi line)) [
      | inl e ↦ rw e Ends-failed
      | inr (n, e) ↦ rw e (Ends-parsed h)
    ])

pub check_times-Ends :
    (n k : ℕ) (one : Parser (Unit {0})) (c : List ℕ)
    → ((c' : List ℕ) → length c' ≤ k → Ends (length c') (one c'))
    → length c ≤ k
    → Ends (length c) (check_times n one c)
unfolding check_times
check_times-Ends zero k one c h l = Ends-parsed (omega arith)
check_times-Ends (suc n) k one c h l =
    Ends-bind _ (h c l)
      (λ _ rest m. Ends-le _ m (check_times-Ends n k one rest h (omega (arith, l, m))))

pub parse_times-Ends :
    (n k : ℕ) (one : Parser Frame) (c : List ℕ)
    → ((c' : List ℕ) → length c' ≤ k → Ends (length c') (one c'))
    → length c ≤ k
    → Ends (length c) (parse_times n one c)
unfolding parse_times
parse_times-Ends zero k one c h l = Ends-parsed (omega arith)
parse_times-Ends (suc n) k one c h l = Ends-bind _ (h c l) (λ f rest m.
    Ends-bind _ (Ends-le _ m (parse_times-Ends n k one rest h (omega (arith, l, m))))
      (λ fs rest' m'. Ends-parsed m'))

abbrev pub Shrinks : {A : Type 0} → Parser A → Type 0
Shrinks p = (c : List ℕ) → Ends (length c) (p c)

pub Shrinks-bind :
    {A B : Type 0} (p : Parser A) (f : A → Parser B)
    → Shrinks p
    → ((a : A) → Shrinks (f a))
    → Shrinks (p >>= f)
Shrinks-bind p f h k c = Ends-bind _ (h c) (λ a rest l. Ends-le _ l (k a rest))

pub Shrinks-if :
    {A : Type 0} (b : Bool) (p q : Parser A) → Shrinks p → Shrinks q → Shrinks (if b then p else q)
Shrinks-if b p q h k c = Ends-if b p q (h c) (k c)

pub Shrinks-pure : {A : Type 0} (a : A) → Shrinks (pure a)
Shrinks-pure a c = Ends-parsed (omega arith)
