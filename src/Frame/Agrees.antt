-- ===== src/Frame/Agrees.antt =====
-- ddbb_libs/src/frame.rs: what `check` reads and what `parse` reads, reader by reader.
use ik2203_distributed_coord.Prelude.{
  ℕ, zero, suc, ◌+◌, ◌≡◌, refl, ◌∙◌, ap, arith, List, [], ◌∷◌, ◌++◌, length, take, drop, ltb,
  le→ltb, ◌==◌, ==_iff, ◌&&◌, &&-eq-true, Option, some, Bool, true, false, Bool-cases, inl, inr,
  Option-cases, if◌then◌else◌, control, u64_mod,
}
use ik2203_distributed_coord.Frame.{Frame, bulk, integer, null, simple, error, array, nil}
use ik2203_distributed_coord.Frame.Text.{is_utf8}
use ik2203_distributed_coord.Frame.Cursor.{
  Error, Parsed, parsed, failed, panicked, out_of_fuel, Parser, bind, pure, skip, find_line,
  get_line,
}
use ik2203_distributed_coord.Frame.Parser.{
  check_times, skip_bulk, check_bulk, check_as, check, parse_times, take_bulk, parse_bulk, parse_as,
  parse, text, is_minus_one, null_line,
}

-- Where `p` returns, `q` accepts, and leaves the same bytes.
pub record Passes {A B : Type 0} (b : B) (m : Parsed A) (n : Parsed B) : Type 0 where
  pub at : (a : A) (rest : List ℕ) → m ≡ parsed a rest → n ≡ parsed b rest

bind-eq-parsed :
    {A B : Type 0} (m : Parsed A) (f : A → Parser B) {b : B} {rest : List ℕ}
    → bind m f ≡ parsed b rest
    → (a : A) × (r : List ℕ) × (m ≡ parsed a r) × (f a r ≡ parsed b rest)
unfolding bind
bind-eq-parsed (parsed a r) f h = (a, r, refl, h)
bind-eq-parsed (failed e) f h = absurd (cc h)
bind-eq-parsed panicked f h = absurd (cc h)
bind-eq-parsed out_of_fuel f h = absurd (cc h)

module _ {A B C : Type 0} {b : B} where
  -- the same reader first
  Passes-same :
      (m : Parsed C) (f : C → Parser A) (g : C → Parser B)
      → ((a : C) (r : List ℕ) → m ≡ parsed a r → Passes b (f a r) (g a r))
      → Passes b (bind m f) (bind m g)
  unfolding bind
  Passes-same (parsed a r) f g h = h a r refl
  Passes-same (failed e) f g h = record { at = λ a rest q. absurd (cc q) }
  Passes-same panicked f g h = record { at = λ a rest q. absurd (cc q) }
  Passes-same out_of_fuel f g h = record { at = λ a rest q. absurd (cc q) }

module _ {A B : Type 0} {b : B} where
  Passes-if :
      (x : Bool) (p p' : Parser A) (q q' : Parser B) {c : List ℕ}
      → (x ≡ true → Passes b (p c) (q c))
      → (x ≡ false → Passes b (p' c) (q' c))
      → Passes b ((if x then p else p') c) ((if x then q else q') c)
  unfolding control
  Passes-if true p p' q q' h k = h refl
  Passes-if false p p' q q' h k = k refl

  Passes-panic : {n : Parsed B} → Passes {A = A} b panicked n
  Passes-panic = record { at = λ a rest q. absurd (cc q) }

  Passes-failed : {e : Error} {n : Parsed B} → Passes {A = A} b (failed e) n
  Passes-failed = record { at = λ a rest q. absurd (cc q) }

  Passes-pure : (a : A) (c : List ℕ) → Passes b (pure a c) (pure b c)
  Passes-pure a c = record { at = λ a rest q. cc q }

text-Passes : (frame : List ℕ → Frame) (line c : List ℕ) → Passes tt (text frame line c) (pure tt c)
unfolding control
text-Passes frame line c = elim (Bool-cases (is_utf8 line)) [
  | inl e ↦ rw e (Passes-pure (frame line) c)
  | inr e ↦ rw e Passes-failed
]

take_bulk-Passes : (len : ℕ) (c : List ℕ) → Passes tt (take_bulk len c) (skip_bulk len c)
unfolding take_bulk skip_bulk skip bind control
take_bulk-Passes len c = elim (Bool-cases (ltb (len + 2) u64_mod)) [
  | inr e ↦ rw e Passes-panic
  | inl e ↦ elim (Bool-cases (ltb (length c) (len + 2))) [
    | inl l ↦ rw (e, l) Passes-failed
    | inr l ↦ rw (e, l) (Passes-pure (bulk (take len c)) (drop (len + 2) c))
  ]
]

-- A line break that is found stands behind the line.
find_line-splits :
    (c line rest : List ℕ) → find_line c ≡ some (line, rest) → c ≡ line ++ 13 ∷ (10 ∷ rest)
unfolding find_line control
find_line-splits [] line rest h = absurd (cc h)
find_line-splits (a ∷ []) line rest h = absurd (cc h)
find_line-splits (a ∷ (b ∷ c)) line rest h = elim (Bool-cases (a == 13 && b == 10)) [
  | inl e ↦
      let (e1, e2) = &&-eq-true (a == 13) (b == 10) e in
      let q1 = (==_iff a 13).0 e1 in
      let q2 = (==_iff b 10).0 e2 in
      let l : [] ≡ line = cc h in let r : c ≡ rest = cc h in rw (← l) (cc (q1, q2, r))
  | inr e ↦ elim (Option-cases (find_line (b ∷ c))) [
    | inl z ↦ absurd (cc (h, e, z))
    | inr ((line', rest'), z) ↦
        let k = find_line-splits (b ∷ c) line' rest' z in
        let l : a ∷ line' ≡ line = cc (h, e, z) in
        let r : rest' ≡ rest = cc (h, e, z) in rw (← l, ← r) (cc k)
  ]
]

is_minus_one-eq : (line : List ℕ) → is_minus_one line ≡ true → line ≡ 45 ∷ (49 ∷ [])
is_minus_one-eq [] h = absurd (cc h)
is_minus_one-eq (a ∷ []) h = absurd (cc h)
is_minus_one-eq (a ∷ (b ∷ [])) h =
    let (e1, e2) = &&-eq-true (a == 45) (b == 49) h in
    rw ((==_iff a 45).0 e1, (==_iff b 49).0 e2) refl
is_minus_one-eq (a ∷ (b ∷ (c ∷ s))) h = absurd (cc h)

skip-4 : (a b c d : ℕ) (s : List ℕ) → skip 4 (a ∷ (b ∷ (c ∷ (d ∷ s)))) ≡ parsed tt s
unfolding skip control
skip-4 a b c d s = rw (le→ltb (length (a ∷ (b ∷ (c ∷ (d ∷ s))))) 4 (omega arith)) refl

null-Passes : (c : List ℕ) → Passes tt (bind (get_line c) (λ line. null_line line)) (skip 4 c)
unfolding get_line bind control
null-Passes c = elim (Option-cases (find_line c)) [
  | inl e ↦ rw e Passes-failed
  | inr ((line, rest), e) ↦ elim (Bool-cases (is_minus_one line)) [
    | inr n ↦ rw (e, n) Passes-failed
    | inl n ↦
        let q =
          find_line-splits c line rest e
          ∙ ap (λ l. l ++ 13 ∷ (10 ∷ rest)) (is_minus_one-eq line n) in
        let k = ap (skip 4) q ∙ skip-4 45 49 13 10 rest in rw (e, n, k) (Passes-pure null rest)
  ]
]

check_times-Passes :
    (n : ℕ) (one : Parser Frame) (one' : Parser (Unit {0})) (c : List ℕ)
    → ((c' : List ℕ) → Passes tt (one c') (one' c'))
    → Passes tt (parse_times n one c) (check_times n one' c)
unfolding check_times parse_times bind
check_times-Passes zero one one' c h = Passes-pure nil c
check_times-Passes (suc n) one one' c h = record {
  at = λ fs rest q.
      let (f, r, e1, q1) = bind-eq-parsed (one c) _ q in
      let (fs', r', e2, q2) = bind-eq-parsed (parse_times n one r) _ q1 in
      let x = h c in
      let y = check_times-Passes n one one' r h in
      let z : r' ≡ rest = cc q2 in rw (x.at f r e1) (y.at fs' rest (e2 ∙ ap (parsed fs') z));
}

array-Passes :
    (n : ℕ) (one : Parser Frame) (one' : Parser (Unit {0})) (c : List ℕ)
    → ((c' : List ℕ) → Passes tt (one c') (one' c'))
    → Passes tt (bind (parse_times n one c) (λ fs. pure (array fs))) (check_times n one' c)
array-Passes n one one' c h = record {
  at = λ f rest q.
      let (fs, r, e, q1) = bind-eq-parsed (parse_times n one c) _ q in
      let z : r ≡ rest = cc q1 in
      let x = check_times-Passes n one one' c h in x.at fs rest (e ∙ ap (parsed fs) z);
}

module _ (atoi : List ℕ → Option ℕ) where
  bulk-Passes : (c : List ℕ) → Passes tt (parse_bulk atoi c) (check_bulk atoi c)
  unfolding check_bulk parse_bulk
  bulk-Passes c = Passes-same _ _ _ (λ b r _.
      Passes-if _ _ _ _ _ (λ _. null-Passes r)
        (λ _. Passes-same _ _ _ (λ len r' _. take_bulk-Passes len r')))

  as-Passes :
      (nested : Parser Frame) (nested' : Parser (Unit {0})) (tag : ℕ) (c : List ℕ)
      → ((c' : List ℕ) → Passes tt (nested c') (nested' c'))
      → Passes tt (parse_as atoi nested tag c) (check_as atoi nested' tag c)
  unfolding check_as parse_as
  as-Passes nested nested' tag c h =
      Passes-if _ _ _ _ _ (λ _. Passes-same _ _ _ (λ line r _. text-Passes simple line r))
        (λ _.
          Passes-if _ _ _ _ _ (λ _. Passes-same _ _ _ (λ line r _. text-Passes error line r))
            (λ _.
              Passes-if _ _ _ _ _ (λ _. Passes-same _ _ _ (λ n r _. Passes-pure (integer n) r))
                (λ _.
                  Passes-if _ _ _ _ _ (λ _. bulk-Passes c)
                    (λ _.
                      Passes-if _ _ _ _ _
                        (λ _. Passes-same _ _ _ (λ len r _. array-Passes len _ _ r h))
                        (λ _. Passes-panic)))))

  check-Passes : (fuel : ℕ) (c : List ℕ) → Passes tt (parse atoi fuel c) (check atoi fuel c)
  unfolding check parse
  check-Passes zero c = record { at = λ f rest q. absurd (cc q) }
  check-Passes (suc fuel) c =
      Passes-same _ _ _ (λ tag r _.
        as-Passes (parse atoi fuel) (check atoi fuel) tag r (λ c'. check-Passes fuel c'))

  -- Where `parse` returns a frame, `check` accepts the same bytes and leaves the same rest: its
  -- position is the length of the frame.
  pub parse-check :
      (fuel : ℕ) (c rest : List ℕ) (f : Frame)
      → parse atoi fuel c ≡ parsed f rest
      → check atoi fuel c ≡ parsed tt rest
  parse-check fuel c rest f h = let p = check-Passes fuel c in p.at f rest h
