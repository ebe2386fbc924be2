-- ===== src/Connection/Written.antt =====
-- ddbb_libs/src/connection.rs: the bytes of a frame as `write_frame` writes it, and what `parse_frame` makes
-- of a buffer that starts with them or ends inside of them.
use ik2203_distributed_coord.Prelude.{
  ℕ, suc, ◌+◌, ◌-◌, ◌≤◌, ◌≡◌, refl, sym, ◌∙◌, ap, arith, List, [], ◌∷◌, ◌++◌, length, length-append,
  drop, drop-append, drop-all, Option, done, control,
}
use mathlib.Core.List.{append_assoc, append-nil}
use ik2203_distributed_coord.Frame.{
  Frame, Frames, simple, error, integer, bulk, null, array, nil, cons, count, serialize,
  serialize_all,
}
use ik2203_distributed_coord.Frame.Text.{to_string, crlf}
use ik2203_distributed_coord.Frame.Cursor.{parsed, failed, incomplete, get_u8, bind}
use ik2203_distributed_coord.Frame.Parser.{check, parse}
use ik2203_distributed_coord.Frame.Agrees.{parse-check}
use ik2203_distributed_coord.Frame.Extends.{check-incomplete}
use ik2203_distributed_coord.Frame.Written.Parses.{parse-literal, parse-literals}
use ik2203_distributed_coord.Frame.Written.{ReadsDecimals, IsLiteral, AreLiterals, IsWritable}
use ik2203_distributed_coord.Connection.{
  write_value, write_values, write_frame, found, unfinished, parse_frame,
}

write_value-literal : (f : Frame) → IsLiteral f → write_value f ≡ done (serialize f)
unfolding write_value serialize IsLiteral
write_value-literal (simple s) h = refl
write_value-literal (error s) h = refl
write_value-literal (integer n) h = refl
write_value-literal null h = refl
write_value-literal (bulk b) h =
    ap (λ l. done (36 ∷ l)) (append_assoc (to_string (length b)) crlf (b ++ crlf))
write_value-literal (array fs) h = absurd h

write_values-literals : (fs : Frames) → AreLiterals fs → write_values fs ≡ done (serialize_all fs)
unfolding write_values serialize_all AreLiterals control
write_values-literals nil h = refl
write_values-literals (cons f fs) (l, h) =
    rw (write_value-literal f l, write_values-literals fs h) refl

-- the bytes of a frame as `write_frame` writes it
abbrev pub written : Frame → List ℕ
written (array fs) = 42 ∷ ((to_string (count fs) ++ crlf) ++ serialize_all fs)
written f = serialize f

pub write_frame-written : (f : Frame) → IsWritable f → write_frame f ≡ done (written f)
unfolding write_frame IsWritable control
write_frame-written (simple s) h = write_value-literal (simple s) h
write_frame-written (error s) h = write_value-literal (error s) h
write_frame-written (integer n) h = write_value-literal (integer n) h
write_frame-written null h = write_value-literal null h
write_frame-written (bulk b) h = write_value-literal (bulk b) h
write_frame-written (array fs) (l, h) = rw (write_values-literals fs l) refl

module _ (atoi : List ℕ → Option ℕ) (reads : ReadsDecimals atoi) where
  parse-written :
      (fuel : ℕ) (f : Frame) (rest : List ℕ)
      → IsWritable f
      → parse atoi (suc (suc fuel)) (written f ++ rest) ≡ parsed f rest
  unfolding IsWritable
  parse-written fuel (simple s) rest h = parse-literal atoi reads (suc fuel) (simple s) rest h
  parse-written fuel (error s) rest h = parse-literal atoi reads (suc fuel) (error s) rest h
  parse-written fuel (integer n) rest h = parse-literal atoi reads (suc fuel) (integer n) rest h
  parse-written fuel null rest h = parse-literal atoi reads (suc fuel) null rest h
  parse-written fuel (bulk b) rest h = parse-literal atoi reads (suc fuel) (bulk b) rest h
  parse-written fuel (array fs) rest (l, h) =
      ap (λ c. parse atoi (suc (suc fuel)) (42 ∷ c))
        (append_assoc (to_string (count fs) ++ crlf) (serialize_all fs) rest
          ∙ append_assoc (to_string (count fs)) crlf (serialize_all fs ++ rest))
      ∙ parse-literals atoi reads fuel fs rest l h

-- Two splits of the same list.
pub split :
    (xs ys zs ws : List ℕ)
    → xs ++ ys ≡ zs ++ ws
    → length zs ≤ length xs
    → (m : List ℕ) × (xs ≡ zs ++ m) × (m ++ ys ≡ ws)
split xs ys [] ws h l = (xs, refl, h)
split [] ys (z ∷ zs) ws h l = absurd (omega (arith, l))
split (x ∷ xs) ys (z ∷ zs) ws h l =
    let q : xs ++ ys ≡ zs ++ ws = cc h in
    let e : x ≡ z = cc h in
    let (m, p, k) = split xs ys zs ws q (omega (arith, l)) in (m, cc (e, p), k)

drop-front : (xs ys : List ℕ) → drop (length (xs ++ ys) - length ys) (xs ++ ys) ≡ ys
drop-front xs ys =
    ap (λ n. drop n (xs ++ ys)) {y = length xs} (omega (arith, length-append xs ys))
    ∙ drop-append xs ys (length xs) (omega arith)
    ∙ ap (λ l. l ++ ys) (drop-all (length xs) xs (omega arith))

suc-suc : {A : Type 0} (g : ℕ → A) (n : ℕ) → 1 ≤ n → g (n + 1) ≡ g (suc (suc (n - 1)))
suc-suc g n h = ap g (omega (arith, h))

written-length : (f : Frame) → 1 ≤ length (written f)
unfolding serialize
written-length (simple s) = omega arith
written-length (error s) = omega arith
written-length (integer n) = omega arith
written-length null = omega arith
written-length (bulk b) = omega arith
written-length (array fs) = omega arith

check-nil : (atoi : List ℕ → Option ℕ) → check atoi (0 + 1) [] ≡ failed incomplete
unfolding check get_u8 bind
check-nil atoi = refl

module _ (atoi : List ℕ → Option ℕ) (reads : ReadsDecimals atoi) where
  parse-fuel :
      (n : ℕ) (f : Frame) (rest : List ℕ)
      → IsWritable f
      → 1 ≤ n
      → parse atoi (n + 1) (written f ++ rest) ≡ parsed f rest
  parse-fuel n f rest h l =
      suc-suc (λ k. parse atoi k (written f ++ rest)) n l
      ∙ parse-written atoi reads (n - 1) f rest h

  check-fuel :
      (n : ℕ) (f : Frame) (rest : List ℕ)
      → IsWritable f
      → 1 ≤ n
      → check atoi (n + 1) (written f ++ rest) ≡ parsed tt rest
  check-fuel n f rest h l = parse-check atoi (n + 1) _ rest f (parse-fuel n f rest h l)

  -- A buffer that starts with a frame.
  pub parse_frame-found :
      (f : Frame) (rest : List ℕ)
      → IsWritable f
      → parse_frame atoi (written f ++ rest) ≡ found f rest
  unfolding parse_frame
  parse_frame-found f rest h =
      let l : 1 ≤ length (written f ++ rest) =
        omega (arith, length-append (written f) rest, written-length f) in
      rw (check-fuel _ f rest h l, parse-fuel _ f rest h l)
        (ap (found f) (drop-front (written f) rest))

  check-part :
      (buffer s : List ℕ) (f : Frame)
      → IsWritable f
      → buffer ++ s ≡ written f
      → 1 ≤ length s
      → check atoi (length buffer + 1) buffer ≡ failed incomplete
  check-part [] s f h e l = check-nil atoi
  check-part (b ∷ buffer) s f h e l =
      check-incomplete atoi _ (b ∷ buffer) s [] (omega arith)
        (ap (check atoi (length (b ∷ buffer) + 1)) (e ∙ sym (append-nil (written f)))
          ∙ check-fuel (length (b ∷ buffer)) f [] h (omega arith))
        (omega (arith, l))

  -- A buffer that ends inside a frame.
  pub parse_frame-unfinished :
      (buffer s : List ℕ) (f : Frame)
      → IsWritable f
      → buffer ++ s ≡ written f
      → 1 ≤ length s
      → parse_frame atoi buffer ≡ unfinished
  unfolding parse_frame
  parse_frame-unfinished buffer s f h e l = rw (check-part buffer s f h e l) refl
