-- ===== src/Frame/Display.antt =====
-- ddbb_libs/src/frame.rs: `Display`, `to_error` and the comparison with a `&str`. The `Debug` of `Bytes`
-- is the parameter `debug`: the crate bytes writes what is not UTF-8 with it.
use ik2203_distributed_coord.Prelude.{
  ℕ, List, [], ◌∷◌, ◌++◌, Bool, true, false, ◌==◌, ◌&&◌, if◌then◌else◌,
}
use ik2203_distributed_coord.Frame.{
  Frame, Frames, simple, error, integer, bulk, null, array, nil, cons,
}
use ik2203_distributed_coord.Frame.Text.{to_string, is_utf8, codes}

unfoldable pub eq_bytes : List ℕ → List ℕ → Bool
eq_bytes [] [] = true
eq_bytes [] (b ∷ t) = false
eq_bytes (a ∷ s) [] = false
eq_bytes (a ∷ s) (b ∷ t) = let rest = eq_bytes s t in a == b && rest

-- `frame == "…"`
unfoldable pub eq_str : Frame → List ℕ → Bool
unfolding eq_bytes
eq_str (simple s) other = eq_bytes s other
eq_str (bulk s) other = eq_bytes s other
eq_str _ other = false

module _ (debug : List ℕ → List ℕ) where
  -- a bulk string as text
  unfoldable pub display_bulk : List ℕ → List ℕ
  display_bulk msg = if is_utf8 msg then msg else debug msg

  -- `to_string`: of an array the parts from the second on are written, each behind a space.
  unfoldable mutual
    pub display : Frame → List ℕ
    display (simple response) = response
    display (error msg) = codes "error: " ++ msg
    display (integer num) = to_string num
    display (bulk msg) = display_bulk msg
    display null = codes "(nil)"
    display (array nil) = []
    display (array (cons first parts)) = display_rest parts

    pub display_rest : Frames → List ℕ
    display_rest nil = []
    display_rest (cons part parts) = (32 ∷ display part) ++ display_rest parts

  unfoldable pub to_error : Frame → List ℕ
  unfolding display
  to_error frame = codes "unexpected frame: " ++ display frame
