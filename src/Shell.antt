-- ===== src/Shell.antt =====
-- What a user types: the loop and `message_sender` of ddbb_client/src/main.rs, and the loop of
-- main/src/main.rs on a server. A typed line is the list of its characters' code points, as
-- `read_line` gives it, with the line break.
pub mod Lines
pub mod Answers
mod Examples
use ik2203_distributed_coord.Prelude.{
  ℕ, zero, suc, ◌+◌, ◌*◌, ◌/◌, ◌%◌, List, [], ◌∷◌, ◌++◌, Bool, true, false, ◌&&◌, ◌||◌, leb, ltb,
  ◌==◌, if◌then◌else◌, Option, none, some, Outcome, done, panic, ◌>>=◌, unwrap,
}
use ik2203_distributed_coord.Frame.{Frame}
use ik2203_distributed_coord.Frame.Display.{eq_bytes}
use ik2203_distributed_coord.Frame.Text.{codes, is_utf8}
use ik2203_distributed_coord.Connection.{Answer, frame, Arrival, write_frame, read_frame}
use ik2203_distributed_coord.Entries.{
  Cast, ok, err, CommandEntry, set_value, get_value, empty, MessageEntry, success, failure,
  DataEntry, key_value, command_to_frame, data_from_frame, message_from_frame,
}

-- `char::is_whitespace`
unfoldable pub is_whitespace : ℕ → Bool
is_whitespace c =
    (leb 9 c && leb c 13)
    || (c == 32
        || (c == 133
            || (c == 160
                || (c == 5760
                    || ((leb 8192 c && leb c 8202)
                        || (c == 8232
                            || (c == 8233 || (c == 8239 || (c == 8287 || c == 12288)))))))))

abbrev pub is_nil : List ℕ → Bool
is_nil [] = true
is_nil _ = false

unfoldable pub trim_start : List ℕ → List ℕ
trim_start [] = []
trim_start (c ∷ s) = let rest = trim_start s in if is_whitespace c then rest else c ∷ s

unfoldable pub trim_end : List ℕ → List ℕ
trim_end [] = []
trim_end (c ∷ s) = let rest = trim_end s in if is_whitespace c && is_nil rest then [] else c ∷ rest

-- `split(" ")` puts the character before the first piece, of which there is always one.
abbrev before_first : ℕ → List (List ℕ) → List (List ℕ)
before_first c [] = (c ∷ []) ∷ []
before_first c (w ∷ ws) = (c ∷ w) ∷ ws

unfoldable pub split : List ℕ → List (List ℕ)
split [] = [] ∷ []
split (c ∷ s) = let rest = split s in if c == 32 then [] ∷ rest else before_first c rest

-- the UTF-8 bytes of a character, and of a String
unfoldable pub encode : ℕ → List ℕ
encode c =
    if ltb c 128
    then c ∷ []
    else if ltb c 2048
    then (192 + c / 64) ∷ (128 + c % 64) ∷ []
    else if ltb c 65536
    then (224 + c / 4096) ∷ (128 + (c / 64) % 64) ∷ (128 + c % 64) ∷ []
    else (240 + c / 262144) ∷ (128 + (c / 4096) % 64) ∷ (128 + (c / 64) % 64) ∷ (128 + c % 64) ∷ []

unfoldable pub bytes_of : List ℕ → List ℕ
bytes_of [] = []
bytes_of (c ∷ s) = encode c ++ bytes_of s

-- What the client does with a line: it sends a command, or prints an error.
pub data Action : Type 0 where
  sends : CommandEntry → Action
  prints : List ℕ → Action

unfoldable pub get_line : List (List ℕ) → Action
get_line (key ∷ []) = sends (get_value (bytes_of key))
get_line _ = prints (codes " -> ERROR: Incorrect  command")

unfoldable pub set_line : List (List ℕ) → Action
set_line (key ∷ (value ∷ [])) = sends (set_value (bytes_of key) (bytes_of value))
set_line _ = prints (codes " -> ERROR: Incorrect command")

unfoldable pub client_words : List (List ℕ) → Action
client_words [] = prints []
client_words (word ∷ rest) =
    if eq_bytes word (codes "get")
    then get_line rest
    else if eq_bytes word (codes "set")
    then set_line rest
    else prints (codes " -> ERROR: Unknown command")

unfoldable pub client_line : List ℕ → Action
client_line input = client_words (split (trim_end (trim_start input)))

-- What `message_sender` prints: the `Debug` of the value, the message of the server, or
-- "Wrong command!".
pub data Printed : Type 0 where
  value : List ℕ → Printed
  success_msg : List ℕ → Printed
  err_msg : List ℕ → Printed
  wrong_command : Printed

unfoldable pub unwrap_cast : {A : Type 0} → Cast A → Outcome A
unwrap_cast (ok a) = done a
unwrap_cast (err e) = panic

-- `read_frame().await.unwrap().unwrap()`
unfoldable pub unwrap_answer : Answer → Outcome Frame
unwrap_answer (frame f buffer arrivals) = done f
unwrap_answer _ = panic

-- `debug` is the `Debug` of `Bytes`.
module _ (debug : List ℕ → List ℕ) where
  abbrev print_data : DataEntry → Printed
  print_data (key_value key v) = value (debug v)

  abbrev print_message : MessageEntry → Printed
  print_message (success msg) = success_msg msg
  print_message (failure msg) = err_msg msg

  unfoldable pub print_answer : CommandEntry → Frame → Outcome Printed
  unfolding unwrap_cast
  print_answer (get_value key) f = do
    entry ← unwrap_cast (data_from_frame debug f)
    done (print_data entry)
  print_answer (set_value key v) f = do
    entry ← unwrap_cast (message_from_frame debug f)
    done (print_message entry)
  print_answer empty f = done wrong_command

  -- What is written to the server and what is printed of its answer; the client does not look whether
  -- the write failed.
  unfoldable pub message_sender :
      (List ℕ → Option ℕ) → CommandEntry → List Arrival → Outcome (List ℕ × Printed)
  unfolding print_answer unwrap_answer
  message_sender atoi empty arrivals = done ([], wrong_command)
  message_sender atoi command arrivals = do
    bytes ← write_frame (command_to_frame command)
    res ← unwrap_answer (read_frame atoi [] arrivals)
    out ← print_answer command res
    done (bytes, out)

-- What a server does with a line of its console.
pub data ServerAction : Type 0 where
  lin_read : List ℕ → ServerAction
  lin_write : List ℕ → List ℕ → ServerAction
  shows : ServerAction
  complains : List ℕ → ServerAction

unfoldable pub read_words : List (List ℕ) → ServerAction
read_words (key ∷ []) = lin_read key
read_words _ = complains (codes " -> ERROR: Incorrect  command")

unfoldable pub write_words : List (List ℕ) → ServerAction
write_words (key ∷ (v ∷ [])) = lin_write key (bytes_of v)
write_words _ = complains (codes " -> ERROR: Incorrect command")

unfoldable pub show_words : List (List ℕ) → ServerAction
show_words [] = shows
show_words _ = complains (codes " -> ERROR: Incorrect command")

unfoldable pub server_words : List (List ℕ) → ServerAction
server_words [] = complains []
server_words (word ∷ rest) =
    if eq_bytes word (codes "read")
    then read_words rest
    else if eq_bytes word (codes "write")
    then write_words rest
    else if eq_bytes word (codes "show")
    then show_words rest
    else complains (codes " -> ERROR: Unknown command")

unfoldable pub server_line : List ℕ → ServerAction
server_line input = server_words (split (trim_end (trim_start input)))

-- The value that a `lin_read` returned is unwrapped, and is to be UTF-8; what is printed is the `Debug`
-- of the `String`, a parameter.
unfoldable pub print_read : (List ℕ → List ℕ) → Option (List ℕ) → Outcome (List ℕ)
print_read debug_string o = do v ← unwrap o; if is_utf8 v then done (debug_string v) else panic

module _ {A : Type 0} where
  -- `HashMap<NodeId, String>::insert`
  unfoldable pub insert_peer : List (ℕ × A) → ℕ → A → List (ℕ × A)
  insert_peer [] i a = (i, a) ∷ []
  insert_peer ((j, b) ∷ m) i a =
      let rest = insert_peer m i a in if j == i then (i, a) ∷ m else (j, b) ∷ rest

  -- The addresses of the peers by their ids; an address that is missing panics.
  unfoldable pub peers_from : List (ℕ × A) → List ℕ → List A → Outcome (List (ℕ × A))
  peers_from m [] addrs = done m
  peers_from m (i ∷ ids) [] = panic
  peers_from m (i ∷ ids) (a ∷ addrs) = peers_from (insert_peer m i a) ids addrs
