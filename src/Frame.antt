-- ===== src/Frame.antt =====
-- ddbb_libs/src/frame.rs: `Frame`, and how a frame becomes bytes. A byte is a number below 256, and a
-- `String` is the list of its UTF-8 bytes.
pub mod Text
pub mod Cursor
pub mod Parser
pub mod Ends
pub mod Terminates
pub mod Extends
pub mod Agrees
pub mod Written
pub mod Display
pub mod Deserialize
pub mod Decimal
mod Examples
use ik2203_distributed_coord.Prelude.{ℕ, ◌+◌, List, [], ◌∷◌, ◌++◌, length, Outcome, done, panic}
use ik2203_distributed_coord.Frame.Text.{to_string, crlf, codes}

-- `Frames` is the vector inside an array.
mutual
  pub data Frame : Type 0 where
    simple : List ℕ → Frame
    error : List ℕ → Frame
    integer : ℕ → Frame
    bulk : List ℕ → Frame
    null : Frame
    array : Frames → Frame

  pub data Frames : Type 0 where
    nil : Frames
    cons : Frame → Frames → Frames

-- `val.len()` of an array
unfoldable pub count : Frames → ℕ
count nil = 0
count (cons f fs) = count fs + 1

unfoldable pub push : Frames → Frame → Frames
push nil f = cons f nil
push (cons g fs) f = cons g (push fs f)

-- `Frame::array`, `push_bulk` and `push_int`, which panic on a frame that is no array
abbrev empty_array : Frame
empty_array = array nil

unfoldable push_bulk : Frame → List ℕ → Outcome Frame
unfolding push
push_bulk (array vec) bytes = done (array (push vec (bulk bytes)))
push_bulk _ bytes = panic

unfoldable push_int : Frame → ℕ → Outcome Frame
unfolding push
push_int (array vec) value = done (array (push vec (integer value)))
push_int _ value = panic

-- `Frame::serialize`: an array ends in a line break of its own.
unfoldable mutual
  pub serialize : Frame → List ℕ
  serialize (simple val) = b'+' ∷ (val ++ crlf)
  serialize (error val) = b'-' ∷ (val ++ crlf)
  serialize (integer val) = b':' ∷ (to_string val ++ crlf)
  serialize null = codes "$-1" ++ crlf
  serialize (bulk val) = b'$' ∷ (to_string (length val) ++ (crlf ++ (val ++ crlf)))
  serialize (array val) = b'*' ∷ (to_string (count val) ++ (crlf ++ (serialize_all val ++ crlf)))

  pub serialize_all : Frames → List ℕ
  serialize_all nil = []
  serialize_all (cons f fs) = serialize f ++ serialize_all fs
