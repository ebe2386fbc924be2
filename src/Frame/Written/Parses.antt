-- ===== src/Frame/Written/Parses.antt =====
-- ddbb_libs/src/frame.rs: `parse` on literals, and on arrays of literals.
use ik2203_distributed_coord.Prelude.{
  ℕ, suc, ◌+◌, ◌<◌, ◌≡◌, refl, ◌∙◌, ap, arith, List, ◌∷◌, ◌++◌, length, Option, control, u64_mod,
}
use mathlib.Core.List.{append_assoc}
use ik2203_distributed_coord.Frame.{
  Frame, Frames, simple, error, integer, bulk, null, array, nil, cons, count, serialize,
  serialize_all,
}
use ik2203_distributed_coord.Frame.Text.{to_string, crlf}
use ik2203_distributed_coord.Frame.Cursor.{
  parsed, Parser, bind, pure, peek_u8, get_u8, get_line, get_decimal,
}
use ik2203_distributed_coord.Frame.Parser.{parse_bulk, parse_times, parse_as, parse, text}
use ik2203_distributed_coord.Frame.Written.{ReadsDecimals, IsLine, IsLiteral, AreLiterals}
use ik2203_distributed_coord.Frame.Written.Lines.{
  get_line-found, get_decimal-found, parse_bulk-found,
}

module _ (atoi : List ℕ → Option ℕ) (nested : Parser Frame) (c : List ℕ) where
  parse_as-plus : parse_as atoi nested 43 c ≡ bind (get_line c) (text simple)
  unfolding parse_as control
  parse_as-plus = refl

  parse_as-minus : parse_as atoi nested 45 c ≡ bind (get_line c) (text error)
  unfolding parse_as control
  parse_as-minus = refl

  parse_as-colon : parse_as atoi nested 58 c ≡ bind (get_decimal atoi c) (λ n. pure (integer n))
  unfolding parse_as control
  parse_as-colon = refl

  parse_as-dollar : parse_as atoi nested 36 c ≡ parse_bulk atoi c
  unfolding parse_as control
  parse_as-dollar = refl

  parse_as-star :
      parse_as atoi nested 42 c
      ≡ bind (get_decimal atoi c) (λ len r. bind (parse_times len nested r) (λ fs. pure (array fs)))
  unfolding parse_as control
  parse_as-star = refl

parse_tag :
    (atoi : List ℕ → Option ℕ) (fuel tag : ℕ) (c : List ℕ)
    → parse atoi (suc fuel) (tag ∷ c) ≡ parse_as atoi (parse atoi fuel) tag c
unfolding parse get_u8 bind
parse_tag atoi fuel tag c = refl

text-IsLine :
    (frame : List ℕ → Frame) (s rest : List ℕ)
    → IsLine s
    → bind (get_line (s ++ (crlf ++ rest))) (text frame) ≡ parsed (frame s) rest
unfolding bind control
text-IsLine frame s rest h = rw (get_line-found s rest h.no_break, h.utf8) refl

parse_bulk-null :
    (atoi : List ℕ → Option ℕ) (rest : List ℕ)
    → parse_bulk atoi (45 ∷ (49 ∷ (crlf ++ rest))) ≡ parsed null rest
unfolding parse_bulk peek_u8 get_line bind control
parse_bulk-null atoi rest = refl

module _ (atoi : List ℕ → Option ℕ) (reads : ReadsDecimals atoi) where
  parse_as-literal :
      (nested : Parser Frame) (f : Frame) (rest : List ℕ)
      → IsLiteral f
      → (tag : ℕ) × (c : List ℕ) × (serialize f ++ rest ≡ tag ∷ c)
        × (parse_as atoi nested tag c ≡ parsed f rest)
  unfolding serialize IsLiteral bind
  parse_as-literal nested (simple s) rest h = (
    43,
    s ++ (crlf ++ rest),
    ap (λ l. 43 ∷ l) (append_assoc s crlf rest),
    parse_as-plus atoi nested _ ∙ text-IsLine simple s rest h,
  )
  parse_as-literal nested (error s) rest h = (
    45,
    s ++ (crlf ++ rest),
    ap (λ l. 45 ∷ l) (append_assoc s crlf rest),
    parse_as-minus atoi nested _ ∙ text-IsLine error s rest h,
  )
  parse_as-literal nested (integer n) rest h = (
    58,
    to_string n ++ (crlf ++ rest),
    ap (λ l. 58 ∷ l) (append_assoc (to_string n) crlf rest),
    parse_as-colon atoi nested _ ∙ rw (get_decimal-found atoi reads n rest h) refl,
  )
  parse_as-literal nested (bulk b) rest h = (
    36,
    to_string (length b) ++ (crlf ++ (b ++ (crlf ++ rest))),
    ap (λ l. 36 ∷ l)
        (append_assoc (to_string (length b)) (crlf ++ (b ++ crlf)) rest
          ∙ ap (λ l. to_string (length b) ++ (crlf ++ l)) (append_assoc b crlf rest)),
    parse_as-dollar atoi nested _ ∙ parse_bulk-found atoi reads b rest h,
  )
  parse_as-literal nested null rest h = (
    36,
    45 ∷ (49 ∷ (crlf ++ rest)),
    refl,
    parse_as-dollar atoi nested _ ∙ parse_bulk-null atoi rest,
  )
  parse_as-literal nested (array fs) rest h = absurd h

  pub parse-literal :
      (fuel : ℕ) (f : Frame) (rest : List ℕ)
      → IsLiteral f
      → parse atoi (suc fuel) (serialize f ++ rest) ≡ parsed f rest
  parse-literal fuel f rest h =
      let (tag, c, e, p) = parse_as-literal (parse atoi fuel) f rest h in
      ap (parse atoi (suc fuel)) e ∙ parse_tag atoi fuel tag c ∙ p

  parse_times-literals :
      (fuel : ℕ) (fs : Frames) (rest : List ℕ)
      → AreLiterals fs
      → parse_times (count fs) (parse atoi (suc fuel)) (serialize_all fs ++ rest) ≡ parsed fs rest
  unfolding parse_times count serialize_all AreLiterals bind
  parse_times-literals fuel nil rest h = refl
  parse_times-literals fuel (cons f fs) rest (l, h) =
      ap (λ n. parse_times n (parse atoi (suc fuel)) ((serialize f ++ serialize_all fs) ++ rest))
        {x = count fs + 1} {y = suc (count fs)} (omega arith)
      ∙ rw
          (
            append_assoc (serialize f) (serialize_all fs) rest,
            parse-literal fuel f (serialize_all fs ++ rest) l,
            parse_times-literals fuel fs rest h,
          )
          refl

  -- An array of literals is read back. What its bytes are depends on who writes it: `serialize` puts
  -- a line break behind it, which is left here with the rest.
  pub parse-literals :
      (fuel : ℕ) (fs : Frames) (rest : List ℕ)
      → AreLiterals fs
      → count fs < u64_mod
      → parse atoi
          (suc (suc fuel))
          (42 ∷ (to_string (count fs) ++ (crlf ++ (serialize_all fs ++ rest))))
        ≡ parsed (array fs) rest
  unfolding bind
  parse-literals fuel fs rest h l =
      parse_tag atoi (suc fuel) 42 _
      ∙ parse_as-star atoi (parse atoi (suc fuel)) _
      ∙ rw
          (
            get_decimal-found atoi reads (count fs) (serialize_all fs ++ rest) l,
            parse_times-literals fuel fs rest h,
          )
          refl
