-- ===== src/Frame/Parser.antt =====
-- ddbb_libs/src/frame.rs: `Frame::check`, `Frame::parse` and `Frame::deserialize`. `usize` has 64 bits,
-- and `len + 2` is checked for overflow, as in a debug build.
use ik2203_distributed_coord.Prelude.{
  ℕ, zero, suc, ◌+◌, List, [], ◌∷◌, length, take, ltb, ◌==◌, Option, Bool, false, ◌&&◌,
  if◌then◌else◌, u64_mod,
}
use ik2203_distributed_coord.Frame.{
  Frame, Frames, simple, error, integer, bulk, null, array, nil, cons,
}
use ik2203_distributed_coord.Frame.Text.{is_utf8}
use ik2203_distributed_coord.Frame.Cursor.{
  incomplete, other, Parsed, parsed, failed, panicked, out_of_fuel, Parser, bind, ◌>>=◌, ◌>>◌, pure,
  fail, panic, peek_u8, get_u8, skip, get_line, get_decimal,
}

-- `for _ in 0..n { Frame::check(src)?; }`
unfoldable pub check_times : ℕ → Parser (Unit {0}) → Parser (Unit {0})
check_times zero one = pure tt
check_times (suc n) one = one >> check_times n one

-- `for _ in 0..n { out.push(Frame::parse(src)?); }`
unfoldable pub parse_times : ℕ → Parser Frame → Parser Frames
parse_times zero one = pure nil
parse_times (suc n) one = do f ← one; fs ← parse_times n one; pure (cons f fs)

-- `skip(src, len + 2)`
unfoldable pub skip_bulk : ℕ → Parser (Unit {0})
unfolding skip
skip_bulk len = if ltb (len + 2) u64_mod then skip (len + 2) else panic

-- the bulk string of `len` bytes that stands next
unfoldable pub take_bulk : ℕ → Parser Frame
unfolding skip
take_bulk len =
    if ltb (len + 2) u64_mod
    then (λ c.
        if ltb (length c) (len + 2)
        then failed incomplete
        else bind (skip (len + 2) c) (λ _. pure (bulk (take len c))))
    else panic

-- `b"-1"` is the only line of a null.
abbrev pub is_minus_one : List ℕ → Bool
is_minus_one (a ∷ (b ∷ [])) = a == 45 && b == 49
is_minus_one _ = false

abbrev pub null_line : List ℕ → Parser Frame
null_line line = if is_minus_one line then pure null else fail other

-- `String::from_utf8(line)?`
abbrev pub text : (List ℕ → Frame) → List ℕ → Parser Frame
text frame line = if is_utf8 line then pure (frame line) else fail other

-- "Frame parse failed."
unfoldable pub parse_failed : Parsed Frame → Parsed Frame
parse_failed (failed e) = failed other
parse_failed m = m

module _ (atoi : List ℕ → Option ℕ) where
  unfoldable pub check_bulk : Parser (Unit {0})
  unfolding skip_bulk
  check_bulk = do
    b ← peek_u8
    if b == 45 then skip 4 else (do len ← get_decimal atoi; skip_bulk len)

  unfoldable pub parse_bulk : Parser Frame
  unfolding take_bulk
  parse_bulk = do
    b ← peek_u8
    if b == 45
        then (do line ← get_line; null_line line)
        else (do len ← get_decimal atoi; take_bulk len)

  -- the match of `check` on the type byte; `nested` is the recursive call
  unfoldable pub check_as : Parser (Unit {0}) → ℕ → Parser (Unit {0})
  unfolding check_bulk check_times
  check_as nested tag =
      if tag == b'+'
      then get_line >> pure tt
      else if tag == b'-'
      then get_line >> pure tt
      else if tag == b':'
      then get_decimal atoi >> pure tt
      else if tag == b'$'
      then check_bulk
      else if tag == b'*'
      then (do len ← get_decimal atoi; check_times len nested)
      else fail other

  unfoldable pub check : ℕ → Parser (Unit {0})
  unfolding check_as
  check zero = λ c. out_of_fuel
  check (suc fuel) = do tag ← get_u8; check_as (check fuel) tag

  -- the match of `parse`, which is `unimplemented!` at any other byte
  unfoldable pub parse_as : Parser Frame → ℕ → Parser Frame
  unfolding parse_bulk parse_times
  parse_as nested tag =
      if tag == b'+'
      then (do line ← get_line; text simple line)
      else if tag == b'-'
      then (do line ← get_line; text error line)
      else if tag == b':'
      then (do n ← get_decimal atoi; pure (integer n))
      else if tag == b'$'
      then parse_bulk
      else if tag == b'*'
      then (do len ← get_decimal atoi; fs ← parse_times len nested; pure (array fs))
      else panic

  unfoldable pub parse : ℕ → Parser Frame
  unfolding parse_as
  parse zero = λ c. out_of_fuel
  parse (suc fuel) = do tag ← get_u8; parse_as (parse fuel) tag

  -- `Frame::deserialize`: what `parse` reads once `check` has passed. The fuel is enough, since each
  -- level of nesting takes a byte.
  unfoldable pub deserialize_with : List ℕ → Parsed (Unit {0}) → Parsed Frame
  unfolding parse_failed
  deserialize_with bytes (parsed _ rest) = parse_failed (parse (length bytes + 1) bytes)
  deserialize_with bytes (failed e) = failed other
  deserialize_with bytes panicked = panicked
  deserialize_with bytes out_of_fuel = out_of_fuel

  unfoldable pub deserialize : List ℕ → Parsed Frame
  unfolding deserialize_with
  deserialize bytes = deserialize_with bytes (check (length bytes + 1) bytes)
