-- ===== src/Entries/RoundTrip.antt =====
-- ddbb_libs/src/data_structure.rs, op_data_structure.rs: what `from_frame` makes of the frames of `to_frame`.
use ik2203_distributed_coord.Prelude.{
  ℕ, ◌+◌, ◌<◌, ◌≡◌, refl, arith, List, [], ◌∷◌, length, control, u64_mod, true, done, Option, some,
  if◌then◌else◌,
}
use ik2203_distributed_coord.Frame.{Frame, simple, bulk}
use ik2203_distributed_coord.Frame.Text.{is_utf8, has_crlf}
use ik2203_distributed_coord.Frame.Display.{to_error, eq_bytes, display_bulk}
use ik2203_distributed_coord.Frame.Written.{IsLine, IsWritable}
use ik2203_distributed_coord.Frame
use ik2203_distributed_coord.Entries.{
  message_from_frame, message_to_frame, MessageEntry, success, failure, Cast, ok, err, key_value,
  CommandEntry, set_value, get_value, empty, data_to_frame, data_from_frame, command_to_frame,
  command_from_frame, command_get_value, json_to_frame, json_from_frame, log_entry,
  omni_message_entry,
}

module _ (debug : List ℕ → List ℕ) where
  -- A message of the server is read back as it was sent.
  pub message_round_trip : (m : MessageEntry) → message_from_frame debug (message_to_frame m) ≡ ok m
  unfolding message_from_frame message_to_frame control
  message_round_trip (success msg) = refl
  message_round_trip (failure msg) = refl

  -- the value of an entry behind the wire, which takes it as text
  abbrev pub as_text : List ℕ → List ℕ
  as_text value = if is_utf8 value then value else debug value

  abbrev command_arrives : CommandEntry → Cast CommandEntry
  command_arrives (set_value key value) = ok (set_value key (as_text value))
  command_arrives (get_value key) = ok (get_value command_get_value)
  command_arrives empty = err (to_error debug (command_to_frame empty))

  -- What arrives of a command: a set with its key, and its value as text; a get, whatever its key,
  -- as a get of the key "CommandEntry::GetValue"; and of the empty command an error.
  pub command_from_frame-to_frame :
      (c : CommandEntry) → command_from_frame debug (command_to_frame c) ≡ command_arrives c
  unfolding command_from_frame command_to_frame display_bulk control
  command_from_frame-to_frame (set_value key value) = refl
  command_from_frame-to_frame (get_value key) = refl
  command_from_frame-to_frame empty = refl

  -- A key and a value that is UTF-8 arrive as they were sent, as the data of an answer and as a set.
  text_round_trip :
      (key value : List ℕ)
      → is_utf8 value ≡ true
      → (data_from_frame debug (data_to_frame (key_value key value)) ≡ ok (key_value key value))
        × (command_from_frame debug (command_to_frame (set_value key value))
            ≡ ok (set_value key value))
  unfolding data_from_frame data_to_frame command_from_frame command_to_frame display_bulk control
  text_round_trip key value h = (rw h refl, rw h refl)

eq_bytes_refl : (s : List ℕ) → eq_bytes s s ≡ true
unfolding eq_bytes
eq_bytes_refl [] = refl
eq_bytes_refl (a ∷ s) = ground (arith, eq_bytes_refl s)

-- An entry that serde_json writes and reads back arrives as it was sent, under any tag.
pub json_round_trip :
    {A : Type 0} (debug : List ℕ → List ℕ) (to_vec : A → List ℕ) (from_slice : List ℕ → Option A)
    (begin : List ℕ) (a : A)
    → from_slice (to_vec a) ≡ some a
    → json_from_frame debug from_slice begin (json_to_frame to_vec begin a) ≡ done (ok a)
unfolding json_from_frame json_to_frame control
json_round_trip debug to_vec from_slice begin a h = rw (eq_bytes_refl begin, h) refl

-- The frame of such an entry is one that `write_frame` writes.
pub json_to_frame-IsWritable :
    {A : Type 0} (to_vec : A → List ℕ) (begin : List ℕ) (a : A)
    → IsLine begin
    → length (to_vec a) + 2 < u64_mod
    → IsWritable (json_to_frame to_vec begin a)
unfolding json_to_frame IsWritable Frame.count
json_to_frame-IsWritable to_vec begin a h l = ((h, (l, tt)), omega arith)

log_entry-IsLine : IsLine log_entry
unfolding is_utf8 has_crlf control
log_entry-IsLine = record { utf8 = refl; no_break = refl }

pub omni_message_entry-IsLine : IsLine omni_message_entry
unfolding is_utf8 has_crlf control
omni_message_entry-IsLine = record { utf8 = refl; no_break = refl }
