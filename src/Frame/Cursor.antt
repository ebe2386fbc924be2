-- ===== src/Frame/Cursor.antt =====
-- ddbb_libs/src/frame.rs: the functions that read from a `Cursor<&[u8]>`. A cursor is the list of the
-- bytes from its position on; the position is the length of the buffer less the length of this list.
-- `get_line` computes the length of the buffer less one, which is fine where it is called, behind a
-- byte that was read.
use ik2203_distributed_coord.Prelude.{
  ℕ, List, [], ◌∷◌, length, drop, ltb, ◌==◌, ◌&&◌, Option, none, some, if◌then◌else◌,
}
use mathlib.Core.Option

-- `frame::Error`, less the text of `Other`
pub data Error : Type 0 where
  incomplete other : Error

-- What a reader returns: its result and the bytes that are left, an error, or a panic. The recursion
-- over nested arrays takes fuel.
pub data Parsed (A : Type 0) : Type 0 where
  parsed : A → List ℕ → Parsed A
  failed : Error → Parsed A
  panicked : Parsed A
  out_of_fuel : Parsed A

abbrev pub Parser : Type 0 → Type 0
Parser A = List ℕ → Parsed A

unfoldable pub bind : {A B : Type 0} → Parsed A → (A → Parser B) → Parsed B
bind (parsed a rest) f = f a rest
bind (failed e) f = failed e
bind panicked f = panicked
bind out_of_fuel f = out_of_fuel

infixl 1 ◌>>=◌ ◌>>◌
abbrev pub ◌>>=◌ : {A B : Type 0} → Parser A → (A → Parser B) → Parser B
p >>= f = λ c. bind (p c) f

abbrev pub ◌>>◌ : {A B : Type 0} → Parser A → Parser B → Parser B
p >> q = p >>= λ _. q

abbrev pub pure : {A : Type 0} → A → Parser A
pure a c = parsed a c

abbrev pub fail : {A : Type 0} → Error → Parser A
fail e c = failed e

abbrev pub panic : {A : Type 0} → Parser A
panic c = panicked

unfoldable pub peek_u8 : Parser ℕ
peek_u8 [] = failed incomplete
peek_u8 (b ∷ c) = parsed b (b ∷ c)

unfoldable pub get_u8 : Parser ℕ
get_u8 [] = failed incomplete
get_u8 (b ∷ c) = parsed b c

unfoldable pub skip : ℕ → Parser (Unit {0})
skip n c = if ltb (length c) n then failed incomplete else parsed tt (drop n c)

-- The scan of `get_line`: the bytes before the first line break, and those behind it.
unfoldable pub find_line : List ℕ → Option (List ℕ × List ℕ)
find_line [] = none
find_line (a ∷ []) = none
find_line (a ∷ (b ∷ s)) =
    let more = Option.map (λ (line, rest). (a ∷ line, rest)) (find_line (b ∷ s)) in
    if a == 13 && b == 10 then some ([], s) else more

abbrev line_or_incomplete : Option (List ℕ × List ℕ) → Parsed (List ℕ)
line_or_incomplete none = failed incomplete
line_or_incomplete (some (line, rest)) = parsed line rest

unfoldable pub get_line : Parser (List ℕ)
unfolding find_line
get_line c = line_or_incomplete (find_line c)

abbrev or_other : Option ℕ → Parser ℕ
or_other none = fail other
or_other (some n) = pure n

-- `atoi` is the function `atoi::<u64>` of the crate of that name.
unfoldable pub get_decimal : (List ℕ → Option ℕ) → Parser ℕ
unfolding get_line
get_decimal atoi = do line ← get_line; or_other (atoi line)
