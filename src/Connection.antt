-- ===== src/Connection.antt =====
-- ddbb_libs/src/connection.rs: `Connection` over its buffer. The socket is what arrives on it: reads
-- that return bytes, or an error; at the end of the stream, where the list is at its end, and for a
-- read of no bytes, `read_buf` returns 0. Written are the bytes that `write_frame` puts into the
-- stream when none of its writes fails.
mod Written
pub mod RoundTrip
mod Examples
use ik2203_distributed_coord.Prelude.{
  ℕ, ◌+◌, ◌-◌, List, [], ◌∷◌, ◌++◌, length, drop, is_empty, Bool, false, if◌then◌else◌, Outcome,
  done, panic, ◌>>=◌, Option,
}
use ik2203_distributed_coord.Frame.{
  Frame, Frames, simple, error, integer, bulk, null, array, nil, cons, count,
}
use ik2203_distributed_coord.Frame.Text.{to_string, crlf, codes}
use ik2203_distributed_coord.Frame.Display.{eq_bytes}
use ik2203_distributed_coord.Frame.Cursor.{
  Parsed, parsed, failed, incomplete, other, panicked, out_of_fuel,
}
use ik2203_distributed_coord.Frame.Parser.{check, parse}

unfoldable write_decimal : ℕ → List ℕ
write_decimal val = to_string val ++ crlf

-- `write_value`: an array inside an array is `unreachable!`.
unfoldable pub write_value : Frame → Outcome (List ℕ)
unfolding write_decimal
write_value (simple val) = done (b'+' ∷ (val ++ crlf))
write_value (error val) = done (b'-' ∷ (val ++ crlf))
write_value (integer val) = done (b':' ∷ write_decimal val)
write_value null = done (codes "$-1" ++ crlf)
write_value (bulk val) = done (b'$' ∷ (write_decimal (length val) ++ (val ++ crlf)))
write_value (array val) = panic

-- `for entry in val { self.write_value(entry)?; }`
unfoldable pub write_values : Frames → Outcome (List ℕ)
unfolding write_value
write_values nil = done []
write_values (cons f fs) = do bytes ← write_value f; more ← write_values fs; done (bytes ++ more)

unfoldable pub write_frame : Frame → Outcome (List ℕ)
unfolding write_values write_decimal
write_frame (array val) = do
  values ← write_values val
  done (b'*' ∷ (write_decimal (count val) ++ values))
write_frame frame = write_value frame

abbrev pub reconnect_msg : List ℕ
reconnect_msg = codes "##RECONNECT"

unfoldable got_reconnect_msg : Frame → Bool
unfolding eq_bytes
got_reconnect_msg (error e) = eq_bytes e reconnect_msg
got_reconnect_msg _ = false

-- What `parse_frame` does: a frame and the buffer behind it, `Ok(None)`, or an error.
pub data Attempt : Type 0 where
  found : Frame → List ℕ → Attempt
  unfinished : Attempt
  invalid : Attempt
  panicking : Attempt
  endless : Attempt

-- `buffer.advance(len)` behind `Frame::parse`, where `len` is the position that `check` came to
unfoldable advance_over : List ℕ → List ℕ → Parsed Frame → Attempt
advance_over buffer rest (parsed f _) = found f (drop (length buffer - length rest) buffer)
advance_over buffer rest (failed e) = invalid
advance_over buffer rest panicked = panicking
advance_over buffer rest out_of_fuel = endless

-- What one read of the socket brings.
pub data Arrival : Type 0 where
  received : List ℕ → Arrival
  io_error : Arrival

-- How `read_frame` returns: with a frame, the buffer and what is still to arrive; with one of its two
-- errors at the end of the stream; or with the error of `parse_frame` or of the socket.
pub data Answer : Type 0 where
  frame : Frame → List ℕ → List Arrival → Answer
  closed_by_peer : Answer
  data_remain : Answer
  err : Answer
  panicking : Answer
  endless : Answer

abbrev shutdown : List ℕ → Answer
shutdown buffer = if is_empty buffer then closed_by_peer else data_remain

-- The loop of `read_frame`; `after` goes on when a frame is not complete yet.
unfoldable pub answer : List Arrival → Attempt → Answer → Answer
answer arrivals (found f buffer) after = frame f buffer arrivals
answer arrivals unfinished after = after
answer arrivals invalid after = err
answer arrivals panicking after = panicking
answer arrivals endless after = endless

module _ (atoi : List ℕ → Option ℕ) where
  unfoldable parse_checked : List ℕ → Parsed (Unit {0}) → Attempt
  unfolding advance_over
  parse_checked buffer (parsed _ rest) =
      advance_over buffer rest (parse atoi (length buffer + 1) buffer)
  parse_checked buffer (failed incomplete) = unfinished
  parse_checked buffer (failed other) = invalid
  parse_checked buffer panicked = panicking
  parse_checked buffer out_of_fuel = endless

  unfoldable pub parse_frame : List ℕ → Attempt
  unfolding parse_checked
  parse_frame buffer = parse_checked buffer (check atoi (length buffer + 1) buffer)

  unfoldable pub read_frame : List ℕ → List Arrival → Answer
  unfolding parse_frame answer
  read_frame buffer [] = answer [] (parse_frame buffer) (shutdown buffer)
  read_frame buffer (io_error ∷ arrivals) = answer (io_error ∷ arrivals) (parse_frame buffer) err
  read_frame buffer (received [] ∷ arrivals) =
      answer (received [] ∷ arrivals) (parse_frame buffer) (shutdown buffer)
  read_frame buffer (received (b ∷ bytes) ∷ arrivals) =
      let next = read_frame (buffer ++ b ∷ bytes) arrivals in
      answer (received (b ∷ bytes) ∷ arrivals) (parse_frame buffer) next
