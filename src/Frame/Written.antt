-- ===== src/Frame/Written.antt =====
-- ddbb_libs/src/frame.rs: the frames that fit the format, and what is asked of the crate atoi, which the
-- parser takes as a parameter.
pub mod Lines
pub mod Parses
use ik2203_distributed_coord.Prelude.{
  ℕ, ◌+◌, ◌<◌, ◌≡◌, List, [], length, Option, some, true, false, u64_mod,
}
use ik2203_distributed_coord.Frame.{
  Frame, Frames, simple, error, integer, bulk, null, array, nil, cons, count,
}
use ik2203_distributed_coord.Frame.Text.{to_string, crlf, has_crlf, is_utf8}

-- `atoi::<u64>` reads the decimal digits of a u64.
abbrev pub ReadsDecimals : (List ℕ → Option ℕ) → Type 0
ReadsDecimals atoi = (n : ℕ) → n < u64_mod → atoi (to_string n) ≡ some n

-- The text is UTF-8 and has no line break.
pub record IsLine (s : List ℕ) : Type 0 where
  pub utf8 : is_utf8 s ≡ true
  pub no_break : has_crlf s ≡ false

-- A frame other than an array, whose parts fit the format.
unfoldable pub IsLiteral : Frame → Type 0
IsLiteral (simple s) = IsLine s
IsLiteral (error s) = IsLine s
IsLiteral (integer n) = n < u64_mod
IsLiteral (bulk b) = length b + 2 < u64_mod
IsLiteral null = Unit
IsLiteral (array fs) = ⊥

unfoldable pub AreLiterals : Frames → Type 0
unfolding IsLiteral
AreLiterals nil = Unit
AreLiterals (cons f fs) = IsLiteral f × AreLiterals fs

-- A literal, or an array of literals.
unfoldable pub IsWritable : Frame → Type 0
unfolding IsLiteral AreLiterals
IsWritable (array fs) = AreLiterals fs × (count fs < u64_mod)
IsWritable f = IsLiteral f

-- What `serialize` puts behind a frame that `parse` does not read.
abbrev pub array_end : Frame → List ℕ
array_end (array fs) = crlf
array_end _ = []
