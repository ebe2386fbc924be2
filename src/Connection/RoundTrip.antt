-- ===== src/Connection/RoundTrip.antt =====
-- ddbb_libs/src/connection.rs: `read_frame` on the bytes of `write_frame`, in whatever pieces they arrive.
use ik2203_distributed_coord.Prelude.{
  ℕ, ◌≤◌, ◌<◌, ◌≡◌, refl, sym, ◌∙◌, ap, arith, List, [], ◌∷◌, ◌++◌, length, length-append, ltb,
  ltb→lt, ltb→le, Option, Bool-cases, inl, inr, done,
}
use mathlib.Core.List.{append_assoc}
use ik2203_distributed_coord.Frame.{Frame}
use ik2203_distributed_coord.Frame.Written.{ReadsDecimals, IsWritable}
use ik2203_distributed_coord.Connection.{
  write_frame, Arrival, received, io_error, Answer, frame, parse_frame, answer, read_frame,
}
use ik2203_distributed_coord.Connection.Written.{
  written, write_frame-written, parse_frame-found, parse_frame-unfinished, split,
}

-- all the bytes that are still to arrive
abbrev pub bytes_of : List Arrival → List ℕ
bytes_of [] = []
bytes_of (received bytes ∷ arrivals) = bytes ++ bytes_of arrivals
bytes_of (io_error ∷ arrivals) = bytes_of arrivals

-- Every read brings bytes, and none fails.
abbrev pub AreBytes : List Arrival → Type 0
AreBytes [] = Unit
AreBytes (received [] ∷ arrivals) = ⊥
AreBytes (received (b ∷ bytes) ∷ arrivals) = AreBytes arrivals
AreBytes (io_error ∷ arrivals) = ⊥

-- `read_frame` returned `f`, and `rest` is what is left, in the buffer or to arrive.
pub record Reads (f : Frame) (rest : List ℕ) (a : Answer) : Type 0 where
  pub buffer : List ℕ
  pub arrivals : List Arrival
  pub returns : a ≡ frame f buffer arrivals
  pub left : buffer ++ bytes_of arrivals ≡ rest
  pub healthy : AreBytes arrivals

module _ (atoi : List ℕ → Option ℕ) (reads : ReadsDecimals atoi) where
  answer-found :
      (buffer rest : List ℕ) (arrivals : List Arrival) (f : Frame) (after : Answer)
      → IsWritable f
      → AreBytes arrivals
      → buffer ++ bytes_of arrivals ≡ written f ++ rest
      → length (written f) ≤ length buffer
      → Reads f rest (answer arrivals (parse_frame atoi buffer) after)
  unfolding answer
  answer-found buffer rest arrivals f after h d e l =
      let (m, p, k) = split buffer (bytes_of arrivals) (written f) rest e l in
      record {
        buffer = m;
        arrivals = arrivals;
        returns = rw (p, parse_frame-found atoi reads f m h) refl;
        left = k;
        healthy = d;
      }

  answer-unfinished :
      (buffer rest : List ℕ) (arrivals : List Arrival) (f : Frame) (after : Answer)
      → IsWritable f
      → buffer ++ bytes_of arrivals ≡ written f ++ rest
      → length buffer < length (written f)
      → answer arrivals (parse_frame atoi buffer) after ≡ after
  unfolding answer
  answer-unfinished buffer rest arrivals f after h e l =
      let (m, p, k) =
        split (written f) rest buffer (bytes_of arrivals) (sym e) (omega (arith, l)) in
      let n : 1 ≤ length m = omega (arith, l, ap (length {A = ℕ}) p, length-append buffer m) in
      rw (parse_frame-unfinished atoi reads buffer m f h (sym p) n) refl

  read_frame-written :
      (buffer rest : List ℕ) (arrivals : List Arrival) (f : Frame)
      → IsWritable f
      → AreBytes arrivals
      → buffer ++ bytes_of arrivals ≡ written f ++ rest
      → Reads f rest (read_frame atoi buffer arrivals)
  unfolding read_frame
  read_frame-written buffer rest [] f h d e = answer-found buffer rest [] f _ h d e (
      omega (arith, ap (length {A = ℕ}) e, length-append buffer [], length-append (written f) rest))
  read_frame-written buffer rest (io_error ∷ arrivals) f h d e = absurd d
  read_frame-written buffer rest (received [] ∷ arrivals) f h d e = absurd d
  read_frame-written buffer rest (received (b ∷ bytes) ∷ arrivals) f h d e =
      elim (Bool-cases (ltb (length buffer) (length (written f)))) [
        | inr l ↦ answer-found buffer rest _ f _ h d e (ltb→le _ _ l)
        | inl l ↦
            let next =
              read_frame-written (buffer ++ b ∷ bytes) rest arrivals f h d
                (append_assoc buffer (b ∷ bytes) (bytes_of arrivals) ∙ e) in
            let q =
              answer-unfinished buffer rest _ f (read_frame atoi (buffer ++ b ∷ bytes) arrivals) h e
                (ltb→lt _ _ l) in
            record {
              buffer = next.buffer;
              arrivals = next.arrivals;
              returns = q ∙ next.returns;
              left = next.left;
              healthy = next.healthy;
            }
      ]

  -- A frame that `write_frame` writes, a literal or an array of literals, is what `read_frame`
  -- returns when its bytes come first in the buffer and in what arrives, however they are cut into
  -- reads; the bytes behind it are left. Its simple and error texts are UTF-8 and hold no line
  -- break (`\r\n`), its integers and the number of its parts are below 2^64, and so are the lengths
  -- of its bulk strings, with 2 added. The crate atoi reads the decimals of a u64, and no read
  -- fails.
  pub write_frame-read_frame :
      (buffer rest bytes : List ℕ) (arrivals : List Arrival) (f : Frame)
      → IsWritable f
      → AreBytes arrivals
      → write_frame f ≡ done bytes
      → buffer ++ bytes_of arrivals ≡ bytes ++ rest
      → Reads f rest (read_frame atoi buffer arrivals)
  write_frame-read_frame buffer rest bytes arrivals f h d w e =
      let q : bytes ≡ written f = cc (w, write_frame-written f h) in
      read_frame-written buffer rest arrivals f h d (e ∙ ap (λ l. l ++ rest) q)
