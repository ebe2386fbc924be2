-- ===== src/Frame/Extends.antt =====
-- ddbb_libs/src/frame.rs: `check` on bytes that more bytes follow.
use ik2203_distributed_coord.Prelude.{
  ℕ, zero, suc, ◌+◌, ◌<◌, ◌≡◌, ◌≢◌, refl, ap, arith, List, [], ◌∷◌, ◌++◌, length, length-append,
  drop-append, ltb, ltb→le, le→ltb, ◌==◌, ◌&&◌, Option, some, Bool, true, false, Bool-cases, inl,
  inr, Option-cases, if◌then◌else◌, control,
}
use ik2203_distributed_coord.Frame.Cursor.{
  incomplete, other, Parsed, parsed, failed, panicked, out_of_fuel, Parser, bind, ◌>>=◌, pure, fail,
  panic, peek_u8, get_u8, skip, find_line, get_line, get_decimal,
}
use ik2203_distributed_coord.Frame.Parser.{check_times, skip_bulk, check_bulk, check_as, check}
use ik2203_distributed_coord.Frame.Terminates.{check-Ends}
use ik2203_distributed_coord.Frame.Ends.{Ends-ne}

abbrev Continues : {A : Type 0} → List ℕ → Parsed A → Parsed A → Type 0
Continues s (parsed a rest) m = m ≡ parsed a (rest ++ s)
Continues s (failed incomplete) m = Unit
Continues s (failed other) m = m ≡ failed other
Continues s panicked m = m ≡ panicked
Continues s out_of_fuel m = Unit

-- `m'` is what a reader returns that returned `m`, when `s` follows its bytes.
pub record Extends {A : Type 0} (s : List ℕ) (m m' : Parsed A) : Type 0 where
  pub at : Continues s m m'

-- The reader takes no notice of what follows the bytes it reads.
pub record Monotone {A : Type 0} (p : Parser A) : Type 0 where
  pub extends : (c s : List ℕ) → Extends s (p c) (p (c ++ s))

module _ {A B : Type 0} where
  Extends-bind :
      (s : List ℕ) (m m' : Parsed A) {f : A → Parser B}
      → Extends s m m'
      → ((a : A) → Monotone (f a))
      → Extends s (bind m f) (bind m' f)
  unfolding bind
  Extends-bind s (parsed a rest) m' {f} h k = let e = k a in rw h.at (e.extends rest s)
  Extends-bind s (failed incomplete) m' h k = record { at = tt }
  Extends-bind s (failed other) m' h k = rw h.at (record { at = refl })
  Extends-bind s panicked m' h k = rw h.at (record { at = refl })
  Extends-bind s out_of_fuel m' h k = record { at = tt }

  Monotone-bind :
      (p : Parser A) (f : A → Parser B)
      → Monotone p
      → ((a : A) → Monotone (f a))
      → Monotone (p >>= f)
  Monotone-bind p f h k = record { extends = λ c s. Extends-bind s _ _ (h.extends c s) k }

module _ {A : Type 0} where
  Monotone-if :
      (b : Bool) {p q : Parser A} → Monotone p → Monotone q → Monotone (if b then p else q)
  unfolding control
  Monotone-if true h k = h
  Monotone-if false h k = k

  Monotone-pure : (a : A) → Monotone (pure a)
  Monotone-pure a = record { extends = λ c s. record { at = refl } }

  Monotone-other : Monotone {A = A} (fail other)
  Monotone-other = record { extends = λ c s. record { at = refl } }

  Monotone-panic : Monotone {A = A} panic
  Monotone-panic = record { extends = λ c s. record { at = refl } }

find_line-append :
    (c s line rest : List ℕ)
    → find_line c ≡ some (line, rest)
    → find_line (c ++ s) ≡ some (line, rest ++ s)
unfolding find_line control
find_line-append [] s line rest h = absurd (cc h)
find_line-append (a ∷ []) s line rest h = absurd (cc h)
find_line-append (a ∷ (b ∷ c)) s line rest h = elim (Bool-cases (a == 13 && b == 10)) [
  | inl e ↦ rw e (cc (h, e))
  | inr e ↦ elim (Option-cases (find_line (b ∷ c))) [
    | inl z ↦ absurd (cc (h, e, z))
    | inr ((line', rest'), z) ↦
        let k = find_line-append (b ∷ c) s line' rest' z in rw (e, k) (cc (h, e, z))
  ]
]

peek_u8-Monotone : Monotone peek_u8
unfolding peek_u8
peek_u8-Monotone = record { extends = go }
  where
    go : (c s : List ℕ) → Extends s (peek_u8 c) (peek_u8 (c ++ s))
    go [] s = record { at = tt }
    go (a ∷ c) s = record { at = refl }

get_u8-Monotone : Monotone get_u8
unfolding get_u8
get_u8-Monotone = record { extends = go }
  where
    go : (c s : List ℕ) → Extends s (get_u8 c) (get_u8 (c ++ s))
    go [] s = record { at = tt }
    go (a ∷ c) s = record { at = refl }

skip-Monotone : (n : ℕ) → Monotone (skip n)
unfolding skip control
skip-Monotone n = record {
  extends = λ c s. elim (Bool-cases (ltb (length c) n)) [
    | inl e ↦ rw e (record { at = tt })
    | inr e ↦
        let l = ltb→le (length c) n e in
        rw (e, le→ltb (length (c ++ s)) n (omega (arith, l, length-append c s)))
          (record { at = ap (parsed tt) (drop-append c s n l) })
  ];
}

get_line-Monotone : Monotone get_line
unfolding get_line
get_line-Monotone = record {
  extends = λ c s. elim (Option-cases (find_line c)) [
    | inl e ↦ rw e (record { at = tt })
    | inr ((line, rest), e) ↦ rw (e, find_line-append c s line rest e) (record { at = refl })
  ];
}

check_times-Monotone :
    (n : ℕ) (one : Parser (Unit {0})) → Monotone one → Monotone (check_times n one)
unfolding check_times
check_times-Monotone zero one h = Monotone-pure tt
check_times-Monotone (suc n) one h = Monotone-bind one _ h (λ _. check_times-Monotone n one h)

skip_bulk-Monotone : (len : ℕ) → Monotone (skip_bulk len)
unfolding skip_bulk
skip_bulk-Monotone len = Monotone-if _ (skip-Monotone (len + 2)) Monotone-panic

module _ (atoi : List ℕ → Option ℕ) where
  get_decimal-Monotone : Monotone (get_decimal atoi)
  unfolding get_decimal
  get_decimal-Monotone = Monotone-bind _ _ get_line-Monotone (λ line.
      elim (Option-cases (atoi line)) [
        | inl e ↦ rw e Monotone-other
        | inr (n, e) ↦ rw e (Monotone-pure n)
      ])

  check_bulk-Monotone : Monotone (check_bulk atoi)
  unfolding check_bulk
  check_bulk-Monotone = Monotone-bind _ _ peek_u8-Monotone (λ b.
      Monotone-if _ (skip-Monotone 4)
        (Monotone-bind _ _ get_decimal-Monotone (λ len. skip_bulk-Monotone len)))

  check_as-Monotone :
      (nested : Parser (Unit {0})) (tag : ℕ) → Monotone nested → Monotone (check_as atoi nested tag)
  unfolding check_as
  check_as-Monotone nested tag h =
      let line = Monotone-bind _ (λ _. pure tt) get_line-Monotone (λ _. Monotone-pure tt) in
      Monotone-if _ line (
        Monotone-if _ line (
          Monotone-if _ (Monotone-bind _ _ get_decimal-Monotone (λ _. Monotone-pure tt)) (
            Monotone-if _ check_bulk-Monotone (
              Monotone-if _
                (Monotone-bind _ _ get_decimal-Monotone (λ len. check_times-Monotone len nested h))
                Monotone-other))))

  check-Monotone : (fuel : ℕ) → Monotone (check atoi fuel)
  unfolding check
  check-Monotone zero = record { extends = λ c s. record { at = tt } }
  check-Monotone (suc fuel) =
      Monotone-bind _ _ get_u8-Monotone
        (λ tag. check_as-Monotone (check atoi fuel) tag (check-Monotone fuel))

accepts-Continues :
    (s rest : List ℕ) (m m' : Parsed (Unit {0}))
    → Extends s m m'
    → m ≢ out_of_fuel
    → m' ≡ parsed tt rest
    → length rest < length s
    → m ≡ failed incomplete
accepts-Continues s rest (parsed _ r) m' h n e l =
    let q : rest ≡ r ++ s = cc (h.at, e) in
    absurd (omega (arith, l, ap (length {A = ℕ}) q, length-append r s))
accepts-Continues s rest (failed incomplete) m' h n e l = refl
accepts-Continues s rest (failed other) m' h n e l = absurd (cc (h.at, e))
accepts-Continues s rest panicked m' h n e l = absurd (cc (h.at, e))
accepts-Continues s rest out_of_fuel m' h n e l = absurd (n refl)

-- When `check` accepts the bytes `c ++ s` and leaves fewer of them than `s` has, so that `c` is a
-- frame cut short, then it answers `Incomplete` to `c` alone, when the fuel is greater than the
-- number of its bytes: no other error, no panic, and it does not accept it.
pub check-incomplete :
    (atoi : List ℕ → Option ℕ) (fuel : ℕ) (c s rest : List ℕ)
    → length c < fuel
    → check atoi fuel (c ++ s) ≡ parsed tt rest
    → length rest < length s
    → check atoi fuel c ≡ failed incomplete
check-incomplete atoi fuel c s rest h e l =
    let m = check-Monotone atoi fuel in
    accepts-Continues s rest _ _ (m.extends c s) (Ends-ne (check-Ends atoi fuel c h)) e l

-- What `check` accepts it accepts also when more bytes follow, and it leaves these too.
check-append :
    (atoi : List ℕ → Option ℕ) (fuel : ℕ) (c s rest : List ℕ)
    → check atoi fuel c ≡ parsed tt rest
    → check atoi fuel (c ++ s) ≡ parsed tt (rest ++ s)
check-append atoi fuel c s rest h =
    let m = check-Monotone atoi fuel in let e = m.extends c s in accepted _ _ h e
  where
    accepted :
        (m m' : Parsed (Unit {0}))
        → m ≡ parsed tt rest
        → Extends s m m'
        → m' ≡ parsed tt (rest ++ s)
    accepted (parsed _ r) m' h e = cc (h, e.at)
    accepted (failed incomplete) m' h e = absurd (cc h)
    accepted (failed other) m' h e = absurd (cc h)
    accepted panicked m' h e = absurd (cc h)
    accepted out_of_fuel m' h e = absurd (cc h)
