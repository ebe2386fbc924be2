-- ===== src/Frame/Deserialize.antt =====
-- ddbb_libs/src/frame.rs: `deserialize`, on what `serialize` makes and on any bytes.
use ik2203_distributed_coord.Prelude.{
  ℕ, suc, ◌+◌, ◌-◌, ◌≤◌, ◌≡◌, ◌≢◌, refl, sym, ◌∙◌, ap, arith, List, [], length, Option,
}
use mathlib.Core.List.{append-nil}
use ik2203_distributed_coord.Frame.{Frame, simple, error, integer, bulk, null, array, serialize}
use ik2203_distributed_coord.Frame.Text.{crlf}
use ik2203_distributed_coord.Frame.Cursor.{Parsed, parsed, failed, panicked, out_of_fuel}
use ik2203_distributed_coord.Frame.Parser.{
  check, parse, deserialize, deserialize_with, parse_failed,
}
use ik2203_distributed_coord.Frame.Agrees.{parse-check}
use ik2203_distributed_coord.Frame.Terminates.{check-Ends, parse-Ends}
use ik2203_distributed_coord.Frame.Ends.{Ends-ne}
use ik2203_distributed_coord.Frame.Written.Parses.{parse-literal, parse-literals}
use ik2203_distributed_coord.Frame.Written.{ReadsDecimals, IsLiteral, IsWritable, array_end}

literal :
    (atoi : List ℕ → Option ℕ) (fuel : ℕ) (f : Frame)
    → ReadsDecimals atoi
    → IsLiteral f
    → parse atoi (suc (suc fuel)) (serialize f) ≡ parsed f []
literal atoi fuel f reads h =
    ap (parse atoi (suc (suc fuel))) (sym (append-nil (serialize f)))
    ∙ parse-literal atoi reads (suc fuel) f [] h

-- The frame is read back by `parse` on any fuel of at least two.
parse-serialize :
    (atoi : List ℕ → Option ℕ) (fuel : ℕ) (f : Frame)
    → ReadsDecimals atoi
    → IsWritable f
    → parse atoi (suc (suc fuel)) (serialize f) ≡ parsed f (array_end f)
unfolding IsWritable serialize
parse-serialize atoi fuel (array fs) reads (l, h) = parse-literals atoi reads fuel fs crlf l h
parse-serialize atoi fuel (simple s) reads h = literal atoi fuel (simple s) reads h
parse-serialize atoi fuel (error s) reads h = literal atoi fuel (error s) reads h
parse-serialize atoi fuel (integer n) reads h = literal atoi fuel (integer n) reads h
parse-serialize atoi fuel null reads h = literal atoi fuel null reads h
parse-serialize atoi fuel (bulk b) reads h = literal atoi fuel (bulk b) reads h

deserialize-parse :
    (atoi : List ℕ → Option ℕ) (bytes rest : List ℕ) (f : Frame)
    → parse atoi (length bytes + 1) bytes ≡ parsed f rest
    → deserialize atoi bytes ≡ parsed f rest
unfolding deserialize
deserialize-parse atoi bytes rest f h = rw (parse-check atoi _ bytes rest f h, h) refl

serialize-length : (f : Frame) → 1 ≤ length (serialize f)
unfolding serialize
serialize-length (simple s) = omega arith
serialize-length (error s) = omega arith
serialize-length (integer n) = omega arith
serialize-length null = omega arith
serialize-length (bulk b) = omega arith
serialize-length (array fs) = omega arith

-- What `serialize` makes of a literal, or of an array of literals, `deserialize` reads back; of an
-- array it leaves the line break at the end. Its simple and error texts are UTF-8 and hold no line
-- break (`\r\n`), its integers and the number of its parts are below 2^64, and so are the lengths
-- of its bulk strings, with 2 added. The crate atoi reads the decimals of a u64.
pub deserialize-serialize :
    (atoi : List ℕ → Option ℕ) (f : Frame)
    → ReadsDecimals atoi
    → IsWritable f
    → deserialize atoi (serialize f) ≡ parsed f (array_end f)
deserialize-serialize atoi f reads h = deserialize-parse atoi (serialize f) (array_end f) f (
    ap (λ n. parse atoi n (serialize f)) {y = suc (suc (length (serialize f) - 1))}
      (omega (arith, serialize-length f))
    ∙ parse-serialize atoi (length (serialize f) - 1) f reads h)

parse_ends : (m : Parsed Frame) → m ≢ out_of_fuel → parse_failed m ≢ out_of_fuel
unfolding parse_failed
parse_ends (parsed f rest) h = λ q. cc q
parse_ends (failed e) h = λ q. cc q
parse_ends panicked h = λ q. cc q
parse_ends out_of_fuel h = h

-- The fuel of `deserialize` is enough for any bytes.
deserialize-ends :
    (atoi : List ℕ → Option ℕ) (bytes : List ℕ) → deserialize atoi bytes ≢ out_of_fuel
unfolding deserialize
deserialize-ends atoi bytes =
    ends (check atoi (length bytes + 1) bytes)
      (Ends-ne (check-Ends atoi (length bytes + 1) bytes (omega arith)))
  where
    ends : (m : Parsed (Unit {0})) → m ≢ out_of_fuel → deserialize_with atoi bytes m ≢ out_of_fuel
    ends (parsed _ rest) h =
        parse_ends (parse atoi (length bytes + 1) bytes)
          (Ends-ne (parse-Ends atoi (length bytes + 1) bytes (omega arith)))
    ends (failed e) h = λ q. absurd (cc q)
    ends panicked h = λ q. absurd (cc q)
    ends out_of_fuel h = λ q. h refl
