-- ===== src/Shell/Lines.antt =====
-- ddbb_client/src/main.rs and main/src/main.rs: the words of a typed line, and what becomes of them.
use ik2203_distributed_coord.Prelude.{
  ℕ, ◌≡◌, refl, ◌∙◌, ap, List, Bool, [], ◌∷◌, ◌++◌, true, false, ◌&&◌, ◌==◌, control, All, all_nil,
  all_cons, arith,
}
use ik2203_distributed_coord.Frame.Text.{codes}
use ik2203_distributed_coord.Frame.Display.{eq_bytes}
use ik2203_distributed_coord.Entries.{
  CommandEntry, ok, set_value, get_value, command_to_frame, command_from_frame, command_get_value,
}
use ik2203_distributed_coord.Entries.RoundTrip.{command_from_frame-to_frame, as_text}
use ik2203_distributed_coord.Shell.{
  is_nil, is_whitespace, trim_start, trim_end, split, client_line, client_words, get_line, set_line,
  sends, bytes_of, server_line, server_words,
}

-- No character of the word is white space.
abbrev pub IsWord : List ℕ → Type 0
IsWord w = All (λ c. is_whitespace c ≡ false) w

space_iff : (c : ℕ) → is_whitespace c ≡ false → (c == 32) ≡ false
unfolding is_whitespace
space_iff c h = ground arith

split_word : (w : List ℕ) → IsWord w → split w ≡ w ∷ []
unfolding split control
split_word [] all_nil = refl
split_word (c ∷ w) (all_cons p h) = rw (space_iff c p, split_word w h) refl

split_first : (w s : List ℕ) → IsWord w → split (w ++ 32 ∷ s) ≡ w ∷ split s
unfolding split control
split_first [] s all_nil = refl
split_first (c ∷ w) s (all_cons p h) = rw (space_iff c p, split_first w s h) refl

line_break : is_whitespace 10 ≡ true
unfolding is_whitespace
line_break = refl

and_false : (b : Bool) → (b && false) ≡ false
and_false true = refl
and_false false = refl

is_nil_append : (xs : List ℕ) (c : ℕ) (r : List ℕ) → is_nil (xs ++ c ∷ r) ≡ false
is_nil_append [] c r = refl
is_nil_append (x ∷ xs) c r = refl

-- The line break behind the last word is dropped.
trim_end_word : (w : List ℕ) → IsWord w → trim_end (w ++ 10 ∷ []) ≡ w
unfolding trim_end control
trim_end_word [] all_nil = rw line_break refl
trim_end_word (c ∷ w) (all_cons p h) = rw (p, trim_end_word w h) refl

-- What stands before a character that is kept is kept.
trim_end_before :
    (xs s : List ℕ) (c : ℕ) (r : List ℕ) → trim_end s ≡ c ∷ r → trim_end (xs ++ s) ≡ xs ++ c ∷ r
unfolding trim_end control
trim_end_before [] s c r h = h
trim_end_before (x ∷ xs) s c r h =
    rw (trim_end_before xs s c r h, is_nil_append xs c r, and_false (is_whitespace x)) refl

-- A word that has a character, and none that is white space.
pub record IsTyped (w : List ℕ) : Type 0 where
  pub word : IsWord w
  pub some_char : is_nil w ≡ false

-- The words with a space between each two, and the line with its line break.
abbrev joined : List ℕ → List (List ℕ) → List ℕ
joined w [] = w
joined w (v ∷ ws) = w ++ 32 ∷ joined v ws

abbrev pub line_of : List ℕ → List (List ℕ) → List ℕ
line_of w [] = w ++ 10 ∷ []
line_of w (v ∷ ws) = w ++ 32 ∷ line_of v ws

is_nil-joined : (w : List ℕ) (ws : List (List ℕ)) → IsTyped w → is_nil (joined w ws) ≡ false
is_nil-joined w [] h = h.some_char
is_nil-joined w (v ∷ ws) h = is_nil_append w 32 (joined v ws)

trim_end-line_of :
    (w : List ℕ) (ws : List (List ℕ))
    → IsTyped w
    → All IsTyped ws
    → trim_end (line_of w ws) ≡ joined w ws
unfolding trim_end control
trim_end-line_of w [] h all_nil = trim_end_word w h.word
trim_end-line_of w (v ∷ ws) h (all_cons k hs) =
    trim_end_before w (32 ∷ line_of v ws) 32 (joined v ws)
      (rw (trim_end-line_of v ws k hs, is_nil-joined v ws k, and_false (is_whitespace 32)) refl)

first_char : {c : ℕ} {w : List ℕ} → IsWord (c ∷ w) → is_whitespace c ≡ false
first_char (all_cons p h) = p

trim_start_word : (w s : List ℕ) → IsTyped w → trim_start (w ++ s) ≡ w ++ s
unfolding trim_start control
trim_start_word [] s h = absurd (cc h.some_char)
trim_start_word (c ∷ w) s h = rw (first_char h.word) refl

trim_start-line_of :
    (w : List ℕ) (ws : List (List ℕ)) → IsTyped w → trim_start (line_of w ws) ≡ line_of w ws
trim_start-line_of w [] h = trim_start_word w (10 ∷ []) h
trim_start-line_of w (v ∷ ws) h = trim_start_word w (32 ∷ line_of v ws) h

split-joined :
    (w : List ℕ) (ws : List (List ℕ)) → IsTyped w → All IsTyped ws → split (joined w ws) ≡ w ∷ ws
split-joined w [] h all_nil = split_word w h.word
split-joined w (v ∷ ws) h (all_cons k hs) =
    split_first w (joined v ws) h.word ∙ ap (λ x. w ∷ x) (split-joined v ws k hs)

-- A line of words with one space between each two is taken apart into these words, by the client and
-- by the server.
pub line_of-words :
    (w : List ℕ) (ws : List (List ℕ))
    → IsTyped w
    → All IsTyped ws
    → (client_line (line_of w ws) ≡ client_words (w ∷ ws))
      × (server_line (line_of w ws) ≡ server_words (w ∷ ws))
unfolding client_line server_line
line_of-words w ws h hs =
    let e : split (trim_end (trim_start (line_of w ws))) ≡ w ∷ ws =
      rw (trim_start-line_of w ws h, trim_end-line_of w ws h hs) (split-joined w ws h hs) in
    (ap client_words e, ap server_words e)

word_get : IsTyped (codes "get")
unfolding is_whitespace
word_get = record { word = all_cons refl (all_cons refl (all_cons refl all_nil)); some_char = refl }

word_set : IsTyped (codes "set")
unfolding is_whitespace
word_set = record { word = all_cons refl (all_cons refl (all_cons refl all_nil)); some_char = refl }

-- A line `get key` makes the client send a command that the server takes for a get of the key
-- "CommandEntry::GetValue", and a line `set key value` one that it takes for a set of the key to the
-- value as text.
pub client_line-arrives :
    (debug : List ℕ → List ℕ) (key v : List ℕ)
    → IsTyped key
    → IsTyped v
    → ((c : CommandEntry) × (client_line (line_of (codes "get") (key ∷ [])) ≡ sends c)
        × (command_from_frame debug (command_to_frame c) ≡ ok (get_value command_get_value)))
      × ((c : CommandEntry) × (client_line (line_of (codes "set") (key ∷ v ∷ [])) ≡ sends c)
          × (command_from_frame debug (command_to_frame c)
              ≡ ok (set_value (bytes_of key) (as_text debug (bytes_of v)))))
unfolding client_words get_line set_line eq_bytes control
client_line-arrives debug key v h k =
    let get_typed = (line_of-words (codes "get") (key ∷ []) word_get (all_cons h all_nil)).0 in
    let set_typed =
      (line_of-words (codes "set") (key ∷ v ∷ []) word_set (all_cons h (all_cons k all_nil))).0 in
    (
      (
        get_value (bytes_of key),
        get_typed,
        command_from_frame-to_frame debug (get_value (bytes_of key)),
      ),
      (
        set_value (bytes_of key) (bytes_of v),
        set_typed,
        command_from_frame-to_frame debug (set_value (bytes_of key) (bytes_of v)),
      ),
    )
