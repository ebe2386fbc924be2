-- ===== src/Frame/Written/Lines.antt =====
-- ddbb_libs/src/frame.rs: a line, a decimal number and a bulk string as they are written.
use ik2203_distributed_coord.Prelude.{
  ℕ, zero, suc, ◌+◌, ◌/◌, ◌%◌, ◌≤◌, ◌<◌, ◌≡◌, ◌≢◌, refl, sym, ◌∙◌, ap, arith, List, [], ◌∷◌, ◌++◌,
  length, length-append, drop, ltb, lt→ltb, ltb→lt, le→ltb, take-append, drop-append, drop-drop,
  drop-all, take-all, ◌==◌, ◌&&◌, Option, some, false, Bool-cases, inl, inr, control, u64_mod,
  ||-eq-false,
}
use ik2203_distributed_coord.Frame.{bulk}
use ik2203_distributed_coord.Frame.Text.{to_string, digits, crlf, has_crlf}
use ik2203_distributed_coord.Frame.Cursor.{parsed, bind, peek_u8, find_line, get_line, get_decimal}
use ik2203_distributed_coord.Frame.Parser.{take_bulk, parse_bulk}
use ik2203_distributed_coord.Frame.Written.{ReadsDecimals}

abbrev Digits : List ℕ → Type 0
Digits [] = Unit
Digits (a ∷ s) = (48 ≤ a) × (a < 58) × Digits s

Digits-append : (s t : List ℕ) → Digits s → Digits t → Digits (s ++ t)
Digits-append [] t h k = k
Digits-append (a ∷ s) t (l, u, h) k = (l, u, Digits-append s t h k)

digits-Digits : (k n : ℕ) → Digits (digits k n)
unfolding digits control
digits-Digits zero n = tt
digits-Digits (suc k) n = elim (Bool-cases (ltb n 10)) [
  | inl e ↦ rw e (omega arith, omega (arith, ltb→lt n 10 e), tt)
  | inr e ↦ rw e (
      Digits-append (digits k (n / 10)) _ (digits-Digits k (n / 10)) (omega arith, omega arith, tt))
]

-- Digits contain no line break.
has_crlf-Digits : (s : List ℕ) → Digits s → has_crlf s ≡ false
unfolding has_crlf
has_crlf-Digits [] h = refl
has_crlf-Digits (a ∷ []) h = refl
has_crlf-Digits (a ∷ (b ∷ s)) (l, u, h) = ground (arith, has_crlf-Digits (b ∷ s) h)

snoc-ne-nil : (s : List ℕ) (a : ℕ) → s ++ a ∷ [] ≢ []
snoc-ne-nil [] a h = cc h
snoc-ne-nil (b ∷ s) a h = cc h

digits-ne-nil : (k n : ℕ) → digits (suc k) n ≢ []
unfolding digits control
digits-ne-nil k n h = elim (Bool-cases (ltb n 10)) [
  | inl e ↦ absurd (cc (h, e))
  | inr e ↦ snoc-ne-nil (digits k (n / 10)) (48 + n % 10) (rw e at h)
]

-- The first digit, which is no minus.
digits-cons : (k n : ℕ) → (a : ℕ) × (s : List ℕ) × (digits (suc k) n ≡ a ∷ s) × ((a == 45) ≡ false)
digits-cons k n = go (digits (suc k) n) refl (digits-Digits (suc k) n)
  where
    go :
        (s : List ℕ)
        → digits (suc k) n ≡ s
        → Digits s
        → (a : ℕ) × (t : List ℕ) × (digits (suc k) n ≡ a ∷ t) × ((a == 45) ≡ false)
    go [] e h = absurd (digits-ne-nil k n e)
    go (a ∷ s) e (l, u, h) = (a, s, e, ground arith)

peek_u8-digits :
    (n : ℕ) (t : List ℕ)
    → (a : ℕ) × (peek_u8 (to_string n ++ t) ≡ parsed a (to_string n ++ t)) × ((a == 45) ≡ false)
unfolding peek_u8 to_string
peek_u8-digits n t = let (a, s, e, ne) = digits-cons 19 n in (a, rw e refl, ne)

-- A line is found where it ends.
find_line-found :
    (line rest : List ℕ)
    → has_crlf line ≡ false
    → find_line (line ++ 13 ∷ (10 ∷ rest)) ≡ some (line, rest)
unfolding find_line has_crlf control
find_line-found [] rest h = refl
find_line-found (a ∷ []) rest h = elim (Bool-cases (a == 13)) [
  | inl e ↦ rw e refl
  | inr e ↦ rw e refl
]
find_line-found (a ∷ (b ∷ s)) rest h =
    let (h1, h2) = ||-eq-false (a == 13 && b == 10) (has_crlf (b ∷ s)) h in
    rw (h1, find_line-found (b ∷ s) rest h2) refl

pub get_line-found :
    (line rest : List ℕ)
    → has_crlf line ≡ false
    → get_line (line ++ (crlf ++ rest)) ≡ parsed line rest
unfolding get_line
get_line-found line rest h = rw (find_line-found line rest h) refl

length-crlf : (b rest : List ℕ) → length (b ++ (crlf ++ rest)) ≡ length b + 2 + length rest
length-crlf b rest = omega (arith, length-append b (crlf ++ rest))

drop-crlf : (b rest : List ℕ) → drop (length b + 2) (b ++ (crlf ++ rest)) ≡ rest
drop-crlf b rest =
    sym (drop-drop 2 (length b) (b ++ (crlf ++ rest)))
    ∙ ap (drop 2) (
        drop-append b (crlf ++ rest) (length b) (omega arith)
        ∙ ap (λ l. l ++ (crlf ++ rest)) (drop-all (length b) b (omega arith)))

take_bulk-found :
    (b rest : List ℕ)
    → length b + 2 < u64_mod
    → take_bulk (length b) (b ++ (crlf ++ rest)) ≡ parsed (bulk b) rest
unfolding take_bulk bind control
take_bulk-found b rest h =
    rw
      (
        lt→ltb (length b + 2) u64_mod h,
        le→ltb (length (b ++ (crlf ++ rest))) (length b + 2) (omega (arith, length-crlf b rest)),
        drop-crlf b rest,
        take-append b (crlf ++ rest) (length b) (omega arith),
        take-all (length b) b (omega arith),
      )
      refl

module _ (atoi : List ℕ → Option ℕ) (reads : ReadsDecimals atoi) where
  pub get_decimal-found :
      (n : ℕ) (rest : List ℕ)
      → n < u64_mod
      → get_decimal atoi (to_string n ++ (crlf ++ rest)) ≡ parsed n rest
  unfolding get_decimal to_string bind
  get_decimal-found n rest h =
      rw (get_line-found (to_string n) rest (has_crlf-Digits _ (digits-Digits 20 n)), reads n h)
        refl

  pub parse_bulk-found :
      (b rest : List ℕ)
      → length b + 2 < u64_mod
      → parse_bulk atoi (to_string (length b) ++ (crlf ++ (b ++ (crlf ++ rest))))
        ≡ parsed (bulk b) rest
  unfolding parse_bulk bind control
  parse_bulk-found b rest h =
      let (a, e, ne) = peek_u8-digits (length b) (crlf ++ (b ++ (crlf ++ rest))) in
      rw (e, ne, get_decimal-found (length b) (b ++ (crlf ++ rest)) (omega arith))
        (take_bulk-found b rest h)
