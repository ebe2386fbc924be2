-- ===== src/Connection/Examples.antt =====
-- A frame that arrives in two pieces.
use ik2203_distributed_coord.Prelude.{ℕ, ◌≡◌, refl, arith, List, [], ◌∷◌, ◌++◌, control, done}
use ik2203_distributed_coord.Frame.{Frame, simple, bulk, array, nil, cons, count}
use ik2203_distributed_coord.Frame.Text.{codes, crlf, to_string, is_utf8, has_crlf}
use ik2203_distributed_coord.Frame.Decimal.{decimal, decimal-ReadsDecimals}
use ik2203_distributed_coord.Frame.Written.{IsWritable}
use ik2203_distributed_coord.Connection.{write_frame, read_frame, received}
use ik2203_distributed_coord.Connection.RoundTrip.{Reads, write_frame-read_frame}

abbrev pair : Frame
pair = array (cons (simple (codes "ok")) (cons (bulk (7 ∷ [])) nil))

abbrev pair_bytes : List ℕ
pair_bytes = codes "*2" ++ crlf ++ codes "+ok" ++ crlf ++ codes "$1" ++ crlf ++ 7 ∷ crlf

write_pair : write_frame pair ≡ done pair_bytes
unfolding write_frame to_string count control
write_pair = refl

pair-IsWritable : IsWritable pair
unfolding IsWritable count is_utf8 has_crlf control
pair-IsWritable = ((record { utf8 = refl; no_break = refl }, (omega arith, tt)), omega arith)

write_frame-read_frame_example : Reads pair (codes "+") (
    read_frame decimal (codes "*2") (
      received (crlf ++ codes "+o")
      ∷ (received (codes "k" ++ crlf ++ codes "$1" ++ crlf ++ 7 ∷ (crlf ++ codes "+")) ∷ [])))
write_frame-read_frame_example =
    write_frame-read_frame decimal decimal-ReadsDecimals (codes "*2") (codes "+") pair_bytes
      (received (crlf ++ codes "+o")
        ∷ (received (codes "k" ++ crlf ++ codes "$1" ++ crlf ++ 7 ∷ (crlf ++ codes "+")) ∷ []))
      pair pair-IsWritable tt write_pair refl
