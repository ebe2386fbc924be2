-- ===== src/Entries.antt =====
-- ddbb_libs/src/data_structure.rs: the entries that are sent as frames (`FrameCast`), and
-- `OmniMessageEntry` of ddbb_server/src/omni_paxos_server/op_data_structure.rs. A `String` is the list of its
-- UTF-8 bytes. The crate serde_json is a parameter: `to_vec`, whose errors do not occur for these types,
-- and `from_slice`.
pub mod RoundTrip
mod Examples
use ik2203_distributed_coord.Prelude.{
  ℕ, List, ◌∷◌, ◌++◌, if◌then◌else◌, Outcome, done, panic, ◌>>=◌, Option, unwrap,
}
use ik2203_distributed_coord.Frame.{Frame, simple, error, bulk, array, nil, cons}
use ik2203_distributed_coord.Frame.Text.{codes}
use ik2203_distributed_coord.Frame.Display.{eq_str, display, to_error}

-- `Result<Box<Self>, Error>`, with the text of the error
pub data Cast (A : Type 0) : Type 0 where
  ok : A → Cast A
  err : List ℕ → Cast A

pub data DataEntry : Type 0 where
  key_value : List ℕ → List ℕ → DataEntry

pub data CommandEntry : Type 0 where
  set_value : List ℕ → List ℕ → CommandEntry
  get_value : List ℕ → CommandEntry
  empty : CommandEntry

pub data MessageEntry : Type 0 where
  success : List ℕ → MessageEntry
  failure : List ℕ → MessageEntry  -- `MessageEntry::Error`

abbrev message_success : List ℕ
message_success = codes "MessageEntry::Success"

abbrev message_error : List ℕ
message_error = codes "MessageEntry::Error"

abbrev data_key_value : List ℕ
data_key_value = codes "DataEntry::KeyValue"

abbrev command_set_value : List ℕ
command_set_value = codes "CommandEntry::SetValue"

abbrev pub command_get_value : List ℕ
command_get_value = codes "CommandEntry::GetValue"

abbrev pub pair : Frame → Frame → Frame
pair a b = array (cons a (cons b nil))

abbrev triple : Frame → Frame → Frame → Frame
triple a b c = array (cons a (cons b (cons c nil)))

unfoldable pub message_to_frame : MessageEntry → Frame
message_to_frame (success msg) = pair (simple message_success) (simple msg)
message_to_frame (failure err_msg) = pair (simple message_error) (simple err_msg)

unfoldable pub data_to_frame : DataEntry → Frame
data_to_frame (key_value key value) = triple (simple data_key_value) (simple key) (bulk value)

unfoldable pub command_to_frame : CommandEntry → Frame
command_to_frame (set_value key value) = triple (simple command_set_value) (simple key) (bulk value)
command_to_frame (get_value key) =
    triple (simple command_get_value) (simple command_get_value) (simple key)
command_to_frame empty = array nil

module _ (debug : List ℕ → List ℕ) where
  unfoldable pub message_from_frame : Frame → Cast MessageEntry
  unfolding eq_str display to_error
  message_from_frame (array (cons begin_tag (cons msg nil))) =
      if eq_str begin_tag message_success
      then ok (success (display debug msg))
      else if eq_str begin_tag message_error
      then ok (failure (display debug msg))
      else err (to_error debug (pair begin_tag msg))
  message_from_frame frame = err (to_error debug frame)

  unfoldable pub data_from_frame : Frame → Cast DataEntry
  unfolding eq_str display to_error
  data_from_frame (array (cons begin_tag (cons key (cons value nil)))) =
      if eq_str begin_tag data_key_value
      then ok (key_value (display debug key) (display debug value))
      else err (to_error debug (triple begin_tag key value))
  data_from_frame frame = err (to_error debug frame)

  -- The arm of GetValue stands twice, so the second is never reached.
  unfoldable pub command_from_frame : Frame → Cast CommandEntry
  unfolding eq_str display to_error
  command_from_frame (array (cons begin_tag (cons key (cons value nil)))) =
      if eq_str begin_tag command_get_value
      then ok (get_value (display debug key))
      else if eq_str begin_tag command_set_value
      then ok (set_value (display debug key) (display debug value))
      else if eq_str begin_tag command_get_value
      then ok (get_value (display debug key))
      else err (to_error debug (triple begin_tag key value))
  command_from_frame frame = err (to_error debug frame)

-- The entries that serde_json writes: `LogEntry`, tagged "LogEntry", and the message of an
-- `OmniMessageEntry`, tagged "OmniMessageEntry".
module _ {A : Type 0} (to_vec : A → List ℕ) (begin : List ℕ) where
  unfoldable pub json_to_frame : A → Frame
  json_to_frame a = pair (simple begin) (bulk (to_vec a))

module _ {A : Type 0} (debug : List ℕ → List ℕ) (from_slice : List ℕ → Option A)
    (begin : List ℕ) where
  -- the entry in the second frame of two
  unfoldable json_in : Frame → Frame → Outcome (Cast A)
  unfolding to_error
  json_in begin_tag (bulk serialized) = do result ← unwrap (from_slice serialized); done (ok result)
  json_in begin_tag msg = done (err (to_error debug (pair begin_tag msg)))

  unfoldable pub json_from_frame : Frame → Outcome (Cast A)
  unfolding json_in eq_str
  json_from_frame (array (cons begin_tag (cons msg nil))) =
      if eq_str begin_tag begin
      then json_in begin_tag msg
      else done (err (to_error debug (pair begin_tag msg)))
  json_from_frame frame = done (err (to_error debug frame))

abbrev pub log_entry : List ℕ
log_entry = codes "LogEntry"

abbrev pub omni_message_entry : List ℕ
omni_message_entry = codes "OmniMessageEntry"
