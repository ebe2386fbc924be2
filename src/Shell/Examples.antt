-- ===== src/Shell/Examples.antt =====
-- A get and a set that a user types, and an answer of the server.
use ik2203_distributed_coord.Prelude.{
  arith, Returns, done, ℕ, ◌≡◌, refl, List, [], ◌∷◌, ◌++◌, none, panic, control, all_nil, all_cons,
}
use ik2203_distributed_coord.Frame.{count}
use ik2203_distributed_coord.Frame.Decimal.{decimal, decimal-ReadsDecimals}
use ik2203_distributed_coord.Frame.Written.{IsWritable}
use ik2203_distributed_coord.Connection.{write_frame, received}
use ik2203_distributed_coord.Shell.Answers.{message_sender-prints}
use ik2203_distributed_coord.Frame.Text.{crlf, to_string, is_utf8, has_crlf, codes}
use ik2203_distributed_coord.Entries.{
  key_value, data_to_frame, CommandEntry, ok, get_value, set_value, command_to_frame,
  command_from_frame, command_get_value,
}
use ik2203_distributed_coord.Entries.RoundTrip.{as_text}
use ik2203_distributed_coord.Shell.{
  message_sender, value, is_whitespace, client_line, client_words, server_line, server_words, sends,
  bytes_of, print_read, peers_from, encode,
}
use ik2203_distributed_coord.Shell.Lines.{IsTyped, line_of-words, client_line-arrives}

abbrev debug : List ℕ → List ℕ
debug s = codes "b" ++ s

word_k : IsTyped (codes "k1")
unfolding is_whitespace
word_k = record { word = all_cons refl (all_cons refl all_nil); some_char = refl }

word_x : IsTyped (codes "x")
unfolding is_whitespace
word_x = record { word = all_cons refl all_nil; some_char = refl }

line_of-words_example :
    (client_line (codes "k1 x" ++ 10 ∷ []) ≡ client_words (codes "k1" ∷ codes "x" ∷ []))
    × (server_line (codes "k1 x" ++ 10 ∷ []) ≡ server_words (codes "k1" ∷ codes "x" ∷ []))
line_of-words_example = line_of-words (codes "k1") (codes "x" ∷ []) word_k (all_cons word_x all_nil)

client_line-arrives_example :
    ((c : CommandEntry) × (client_line (codes "get k1" ++ 10 ∷ []) ≡ sends c)
      × (command_from_frame debug (command_to_frame c) ≡ ok (get_value command_get_value)))
    × ((c : CommandEntry) × (client_line (codes "set k1 x" ++ 10 ∷ []) ≡ sends c)
        × (command_from_frame debug (command_to_frame c)
            ≡ ok (set_value (bytes_of (codes "k1")) (as_text debug (bytes_of (codes "x"))))))
client_line-arrives_example = client_line-arrives debug (codes "k1") (codes "x") word_k word_x

abbrev answer_bytes : List ℕ
answer_bytes =
    codes "*3"
    ++ crlf
    ++ codes "+DataEntry::KeyValue"
    ++ crlf
    ++ codes "+k1"
    ++ crlf
    ++ codes "$1"
    ++ crlf
    ++ codes "x"
    ++ crlf

answer-IsWritable : IsWritable (data_to_frame (key_value (codes "k1") (codes "x")))
unfolding IsWritable count is_utf8 has_crlf control data_to_frame
answer-IsWritable = (
  (
    record { utf8 = refl; no_break = refl },
    (record { utf8 = refl; no_break = refl }, (omega arith, tt)),
  ),
  omega arith,
)

answer_written :
    write_frame (data_to_frame (key_value (codes "k1") (codes "x"))) ≡ done answer_bytes
unfolding write_frame data_to_frame to_string count control
answer_written = refl

message_sender-prints_example :
    Returns
      (λ r.
        (write_frame (command_to_frame (get_value (codes "k1"))) ≡ done r.0)
        × (r.1 ≡ value (debug (as_text debug (codes "x")))))
      (message_sender debug decimal (get_value (codes "k1")) (received answer_bytes ∷ []))
message_sender-prints_example =
    message_sender-prints debug decimal decimal-ReadsDecimals (codes "k1") (codes "k1") (codes "x")
      answer_bytes (received answer_bytes ∷ []) answer-IsWritable tt answer_written refl

-- A key that has no value makes the console of the server panic.
read_missing : print_read debug none ≡ panic
unfolding print_read control
read_missing = refl

-- A peer without an address does so at the start.
short_addresses : peers_from [] (2 ∷ 3 ∷ []) (codes "a" ∷ []) ≡ panic
unfolding peers_from
short_addresses = refl

-- U+20AC in UTF-8
euro : bytes_of (8364 ∷ []) ≡ 226 ∷ 130 ∷ 172 ∷ []
unfolding bytes_of encode control
euro = refl
