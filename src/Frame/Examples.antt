-- ===== src/Frame/Examples.antt =====
-- An array on the wire: the theorems on frames at concrete bytes.
use ik2203_distributed_coord.Prelude.{ℕ, ◌≡◌, refl, arith, List, [], ◌∷◌, ◌++◌, control}
use ik2203_distributed_coord.Frame.{Frame, simple, bulk, null, array, nil, cons, serialize, count}
use ik2203_distributed_coord.Frame.Text.{codes, crlf, to_string, is_utf8, has_crlf}
use ik2203_distributed_coord.Frame.Cursor.{
  parsed, failed, incomplete, other, get_u8, peek_u8, get_decimal, bind, panicked,
}
use ik2203_distributed_coord.Frame.Parser.{check, parse, deserialize}
use ik2203_distributed_coord.Frame.Decimal.{decimal, decimal-ReadsDecimals}
use ik2203_distributed_coord.Frame.Written.{IsWritable}
use ik2203_distributed_coord.Frame.Agrees.{parse-check}
use ik2203_distributed_coord.Frame.Terminates.{check-parse-end}
use ik2203_distributed_coord.Frame.Ends.{Ends}
use ik2203_distributed_coord.Frame.Extends.{check-incomplete}
use ik2203_distributed_coord.Frame.Deserialize.{deserialize-serialize}

unfoldable reads : Unit {0}
unfolding check parse deserialize get_u8 peek_u8 get_decimal bind serialize count to_string decimal
    is_utf8 has_crlf control
reads = tt

abbrev three : Frame
three = array (cons (simple (codes "ok")) (cons (bulk (13 ∷ (10 ∷ []))) (cons null nil)))

abbrev three_bytes : List ℕ
three_bytes =
    codes "*3"
    ++ crlf
    ++ codes "+ok"
    ++ crlf
    ++ codes "$2"
    ++ crlf
    ++ crlf
    ++ crlf
    ++ codes "$-1"
    ++ crlf

serialize-three : serialize three ≡ three_bytes ++ crlf
unfolding reads
serialize-three = refl

parse-three : parse decimal 40 (three_bytes ++ codes ":7") ≡ parsed three (codes ":7")
unfolding reads
parse-three = refl

check-three : check decimal 40 (three_bytes ++ []) ≡ parsed tt []
unfolding reads
check-three = refl

-- Of two arrays, one inside the other, the line break behind the inner one is taken for a frame.
deserialize_nested :
    deserialize decimal (serialize (array (cons (array nil) (cons null nil)))) ≡ failed other
unfolding reads
deserialize_nested = refl

-- The length of a bulk string that is the greatest of usize.
check_max_length : check decimal 2 (codes "$18446744073709551615" ++ crlf) ≡ panicked
unfolding reads
check_max_length = refl

three-IsWritable : IsWritable three
unfolding IsWritable reads
three-IsWritable = ((record { utf8 = refl; no_break = refl }, (omega arith, (tt, tt))), omega arith)

parse-check_example : check decimal 40 (three_bytes ++ codes ":7") ≡ parsed tt (codes ":7")
parse-check_example =
    parse-check decimal 40 (three_bytes ++ codes ":7") (codes ":7") three parse-three

-- An array of three parts that is cut inside its first part.
check-cut :
    check decimal 40 (
      (codes "*3" ++ crlf ++ codes "+o")
      ++ (codes "k" ++ crlf ++ codes "$2" ++ crlf ++ crlf ++ crlf ++ codes "$-1" ++ crlf))
    ≡ parsed tt []
unfolding reads
check-cut = refl

check-incomplete_example : check decimal 40 (codes "*3" ++ crlf ++ codes "+o") ≡ failed incomplete
check-incomplete_example =
    check-incomplete decimal 40 (codes "*3" ++ crlf ++ codes "+o")
      (codes "k" ++ crlf ++ codes "$2" ++ crlf ++ crlf ++ crlf ++ codes "$-1" ++ crlf) []
      (omega arith) check-cut (omega arith)

check-parse-end_example :
    Ends 3 (check decimal 4 (codes "*2" ++ 13 ∷ []))
    × Ends 3 (parse decimal 4 (codes "*2" ++ 13 ∷ []))
check-parse-end_example = check-parse-end decimal 4 (codes "*2" ++ 13 ∷ []) (omega arith)

deserialize-serialize_example : deserialize decimal (serialize three) ≡ parsed three crlf
deserialize-serialize_example =
    deserialize-serialize decimal three decimal-ReadsDecimals three-IsWritable
