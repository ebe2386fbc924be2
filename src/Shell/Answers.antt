-- ===== src/Shell/Answers.antt =====
-- ddbb_client/src/main.rs: what `message_sender` prints of the server's answer.
use ik2203_distributed_coord.Prelude.{
  ℕ, ◌≡◌, refl, List, [], ◌++◌, Option, done, Returns, Returns-done, control,
}
use ik2203_distributed_coord.Frame.{Frame}
use ik2203_distributed_coord.Frame.Written.{ReadsDecimals, IsWritable}
use ik2203_distributed_coord.Frame.Display.{display_bulk}
use ik2203_distributed_coord.Connection.{Arrival, write_frame, read_frame}
use ik2203_distributed_coord.Connection.RoundTrip.{AreBytes, Reads, write_frame-read_frame}
use ik2203_distributed_coord.Connection.RoundTrip as R
use ik2203_distributed_coord.Entries.{
  get_value, key_value, data_to_frame, data_from_frame, command_to_frame,
}
use ik2203_distributed_coord.Entries.RoundTrip.{as_text}
use ik2203_distributed_coord.Shell.{message_sender, print_answer, unwrap_answer, unwrap_cast, value}

module _ (debug : List ℕ → List ℕ) (atoi : List ℕ → Option ℕ) (reads : ReadsDecimals atoi) where
  -- The answer is read whatever the cuts between the reads.
  answer-read :
      (bytes : List ℕ) (arrivals : List Arrival) (f : Frame)
      → IsWritable f
      → AreBytes arrivals
      → write_frame f ≡ done bytes
      → R.bytes_of arrivals ≡ bytes ++ []
      → unwrap_answer (read_frame atoi [] arrivals) ≡ done f
  unfolding unwrap_answer
  answer-read bytes arrivals f h d w e =
      rw (write_frame-read_frame atoi reads [] [] bytes arrivals f h d w e).returns refl

  -- When the server's answer to a get, the key and the value that it has, arrives, however its
  -- bytes are cut into reads, the client has sent the frame of the get and prints the `Debug` of
  -- the value's bytes, whatever the key it asked for is; of a value that is not UTF-8 it prints
  -- the `Debug` of its `Debug`. The key in the answer is UTF-8 without a line break, the value's
  -- length plus 2 is below 2^64, the crate atoi reads the decimals of a u64, and no read fails.
  pub message_sender-prints :
      (key k v bytes : List ℕ) (arrivals : List Arrival)
      → IsWritable (data_to_frame (key_value k v))
      → AreBytes arrivals
      → write_frame (data_to_frame (key_value k v)) ≡ done bytes
      → R.bytes_of arrivals ≡ bytes ++ []
      → Returns
          (λ r.
            (write_frame (command_to_frame (get_value key)) ≡ done r.0)
            × (r.1 ≡ value (debug (as_text debug v))))
          (message_sender debug atoi (get_value key) arrivals)
  unfolding message_sender command_to_frame write_frame print_answer data_from_frame data_to_frame
      unwrap_cast display_bulk control
  message_sender-prints key k v bytes arrivals h d w e =
      rw (answer-read bytes arrivals (data_to_frame (key_value k v)) h d w e)
        (Returns-done (refl, refl))
