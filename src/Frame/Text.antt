-- ===== src/Frame/Text.antt =====
-- Text as ddbb_libs/src/frame.rs uses it: decimal numbers, line breaks, and which bytes are UTF-8.
use Prim.Native.Char.{code}
use Prim.Native.String.{String}
use ik2203_distributed_coord.Prelude.{
  ℕ, zero, suc, ◌+◌, ◌/◌, ◌%◌, List, [], ◌∷◌, ◌++◌, Bool, true, false, ◌&&◌, ◌||◌, not, ltb, leb,
  ◌==◌, if◌then◌else◌, ◌≡◌, refl, control,
}

-- the bytes of an ASCII literal
abbrev pub codes : String → List ℕ
codes String.[] = []
codes (String.◌∷◌ c s) = code c ∷ codes s

abbrev pub crlf : List ℕ
crlf = 13 ∷ 10 ∷ []

-- The decimal digits of a number below `10 ^ k`.
unfoldable pub digits : ℕ → ℕ → List ℕ
digits zero n = []
digits (suc k) n =
    let more = digits k (n / 10) in if ltb n 10 then (48 + n) ∷ [] else more ++ (48 + n % 10) ∷ []

-- `to_string` and `{}` of a u64, which has at most twenty digits
unfoldable pub to_string : ℕ → List ℕ
unfolding digits
to_string n = digits 20 n

-- A line break occurs in the text.
unfoldable pub has_crlf : List ℕ → Bool
has_crlf [] = false
has_crlf (a ∷ []) = false
has_crlf (a ∷ (b ∷ s)) = (a == 13 && b == 10) || has_crlf (b ∷ s)

abbrev within : ℕ → ℕ → ℕ → Bool
within lo hi a = leb lo a && leb a hi

-- The first byte of a UTF-8 character: how many bytes follow, and the range of the first of these;
-- 4 stands for a byte that starts no character.
abbrev lead : ℕ → ℕ × ℕ × ℕ
lead a =
    if ltb a 128
    then (0, 0, 0)
    else if within 194 223 a
    then (1, 128, 191)
    else if a == 224
    then (2, 160, 191)
    else if a == 237
    then (2, 128, 159)
    else if within 225 239 a
    then (2, 128, 191)
    else if a == 240
    then (3, 144, 191)
    else if within 241 243 a
    then (3, 128, 191)
    else if a == 244
    then (3, 128, 143)
    else (4, 0, 0)

unfoldable utf8_from : ℕ → ℕ → ℕ → List ℕ → Bool
utf8_from zero lo hi [] = true
utf8_from (suc n) lo hi [] = false
utf8_from zero lo hi (a ∷ s) = let (n, l, h) = lead a in not (n == 4) && utf8_from n l h s
utf8_from (suc n) lo hi (a ∷ s) = within lo hi a && utf8_from n 128 191 s

-- `String::from_utf8` accepts the bytes.
unfoldable pub is_utf8 : List ℕ → Bool
unfolding utf8_from
is_utf8 s = utf8_from 0 0 0 s

digits_max : to_string 18446744073709551615 ≡ codes "18446744073709551615"
unfolding to_string control
digits_max = refl

utf8_tests :
    (is_utf8 (104 ∷ 195 ∷ 169 ∷ []) ≡ true)
    × (is_utf8 (195 ∷ []) ≡ false)
    × (is_utf8 (237 ∷ 160 ∷ 128 ∷ []) ≡ false)
unfolding is_utf8 control
utf8_tests = (refl, refl, refl)
