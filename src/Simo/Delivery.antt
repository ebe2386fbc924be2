-- ===== src/Simo/Delivery.antt =====
-- ddbb_server/src/omni_paxos_server/op_connection.rs: what `process_connection` makes of the bytes that a peer's
-- `process_outgoing_connection` wrote.
use ik2203_distributed_coord.Prelude.{
  ℕ, zero, suc, ◌+◌, ◌<◌, ◌≡◌, refl, sym, ◌∙◌, ap, arith, List, [], ◌∷◌, ◌++◌, length, Option, some,
  Outcome, done, panic, ◌>>=◌, >>=-eq-done, control, u64_mod,
}
use mathlib.Core.List.{append_assoc, append-nil}
use ik2203_distributed_coord.Frame.{Frame}
use ik2203_distributed_coord.Frame.Text.{is_utf8, has_crlf}
use ik2203_distributed_coord.Frame.Written.{ReadsDecimals, IsWritable}
use ik2203_distributed_coord.Frame.Cursor.{get_u8, bind}
use ik2203_distributed_coord.Frame.Parser.{check}
use ik2203_distributed_coord.Connection.{
  Arrival, received, io_error, closed_by_peer, read_frame, write_frame,
}
use ik2203_distributed_coord.Connection.RoundTrip.{
  bytes_of, AreBytes, Reads, write_frame-read_frame,
}
use ik2203_distributed_coord.Entries.{json_to_frame, omni_message_entry}
use ik2203_distributed_coord.Entries.RoundTrip.{
  json_round_trip, json_to_frame-IsWritable, omni_message_entry-IsLine,
}
use ik2203_distributed_coord.Simo.{
  Ended, dropped, panicked, message_in, process_message, process_connection, reconnect_frame,
}

-- what a sender writes for some messages, one frame each
unfoldable pub write_all : {M : Type 0} → (M → List ℕ) → List M → Outcome (List ℕ)
write_all to_vec [] = done []
write_all to_vec (m ∷ ms) = do
  bytes ← write_frame (json_to_frame to_vec omni_message_entry m)
  more ← write_all to_vec ms
  done (bytes ++ more)

-- The length of each message fits the format of a frame.
abbrev pub Fit : {M : Type 0} → (M → List ℕ) → List M → Type 0
Fit to_vec [] = Unit
Fit to_vec (m ∷ ms) = (length (to_vec m) + 2 < u64_mod) × Fit to_vec ms

module _ {M : Type 0} (atoi : List ℕ → Option ℕ) (debug : List ℕ → List ℕ)
    (from_slice : List ℕ → Option M) where
  read-nothing : read_frame atoi [] [] ≡ closed_by_peer
  unfolding read_frame check get_u8 bind control
  read-nothing = refl

  process-nothing :
      (n : ℕ) (incoming : List M) (buffer : List ℕ) (arrivals : List Arrival)
      → AreBytes arrivals
      → buffer ++ bytes_of arrivals ≡ []
      → process_connection atoi debug from_slice (suc n) incoming buffer arrivals ≡ dropped incoming
  unfolding process_connection
  process-nothing n incoming [] [] d e = rw read-nothing refl
  process-nothing n incoming [] (received [] ∷ arrivals) d e = absurd d
  process-nothing n incoming [] (received (b ∷ bytes) ∷ arrivals) d e = absurd (cc e)
  process-nothing n incoming [] (io_error ∷ arrivals) d e = absurd d
  process-nothing n incoming (b ∷ buffer) arrivals d e = absurd (cc e)

  -- One round of the loop, which reads `f`.
  process-Reads :
      (n : ℕ) (incoming : List M) (buffer rest : List ℕ) (arrivals : List Arrival) (f : Frame)
      → (r : Reads f rest (read_frame atoi buffer arrivals))
      → process_connection atoi debug from_slice (suc n) incoming buffer arrivals
        ≡ process_message atoi debug from_slice
            (process_connection atoi debug from_slice n)
            incoming
            (message_in atoi debug from_slice f)
            r.buffer
            r.arrivals
  unfolding process_connection
  process-Reads n incoming buffer rest arrivals f r = rw r.returns refl

  process_message-done :
      (next : List M → List ℕ → List Arrival → Ended M) (incoming : List M) (m : M)
      (buffer : List ℕ) (arrivals : List Arrival)
      → process_message atoi debug from_slice next incoming (done m) buffer arrivals
        ≡ next (incoming ++ m ∷ []) buffer arrivals
  unfolding process_message
  process_message-done next incoming m buffer arrivals = refl

  message_in-json :
      (to_vec : M → List ℕ) (m : M)
      → from_slice (to_vec m) ≡ some m
      → message_in atoi debug from_slice (json_to_frame to_vec omni_message_entry m) ≡ done m
  unfolding message_in control
  message_in-json to_vec m h =
      rw (json_round_trip debug to_vec from_slice omni_message_entry m h) refl

  -- A server takes from a peer's connection the messages that the peer wrote to it, all of them and in
  -- order, however their bytes are cut into reads, and then the connection is dropped when the stream
  -- ends. The crate atoi reads the decimals of a u64, serde_json reads the messages that it wrote,
  -- each fits a frame, no read fails, and the fuel is greater than the number of messages.
  pub process_connection-receives :
      (to_vec : M → List ℕ) (ms : List M) (n : ℕ) (incoming : List M) (buffer bytes : List ℕ)
      (arrivals : List Arrival)
      → ReadsDecimals atoi
      → ((m : M) → from_slice (to_vec m) ≡ some m)
      → Fit to_vec ms
      → AreBytes arrivals
      → length ms < n
      → write_all to_vec ms ≡ done bytes
      → buffer ++ bytes_of arrivals ≡ bytes
      → process_connection atoi debug from_slice n incoming buffer arrivals
        ≡ dropped (incoming ++ ms)
  unfolding write_all
  process_connection-receives to_vec ms zero incoming buffer bytes arrivals reads json fit d l w e =
      absurd (omega (arith, l))
  process_connection-receives to_vec [] (suc n) incoming buffer bytes arrivals reads json fit d l w
        e =
      process-nothing n incoming buffer arrivals d (cc (e, w))
      ∙ ap dropped (sym (append-nil incoming))
  process_connection-receives to_vec (m ∷ ms) (suc n) incoming buffer bytes arrivals reads json
        (f, fit) d l w e =
      let frame_m = json_to_frame to_vec omni_message_entry m in
      let (first, w1, x) = >>=-eq-done (write_frame frame_m) _ w in
      let (more, w2, y) = >>=-eq-done (write_all to_vec ms) _ x in
      let z : first ++ more ≡ bytes = cc y in
      let r =
        write_frame-read_frame atoi reads buffer more first arrivals frame_m
          (json_to_frame-IsWritable to_vec omni_message_entry m omni_message_entry-IsLine f) d w1
          (e ∙ sym z) in
      process-Reads n incoming buffer more arrivals frame_m r
      ∙ ap
          (λ o.
            process_message atoi debug from_slice (process_connection atoi debug from_slice n)
              incoming o r.buffer r.arrivals)
          (message_in-json to_vec m (json m))
      ∙ process_message-done _ incoming m r.buffer r.arrivals
      ∙ process_connection-receives to_vec ms n (incoming ++ m ∷ []) r.buffer more r.arrivals reads
          json fit r.healthy (omega (arith, l)) w2 r.left
      ∙ ap dropped (append_assoc incoming (m ∷ []) ms)

  reconnect-IsWritable : IsWritable reconnect_frame
  unfolding IsWritable is_utf8 has_crlf control
  reconnect-IsWritable = record { utf8 = refl; no_break = refl }

  message_in-reconnect : message_in atoi debug from_slice reconnect_frame ≡ panic
  unfolding message_in control
  message_in-reconnect = refl

  process_message-panic :
      (next : List M → List ℕ → List Arrival → Ended M) (incoming : List M) (buffer : List ℕ)
      (arrivals : List Arrival)
      → process_message atoi debug from_slice next incoming panic buffer arrivals
        ≡ panicked incoming
  unfolding process_message
  process_message-panic next incoming buffer arrivals = refl

  -- On a connection that starts with the frame of `reconnect`, as each does that a sender opens again,
  -- `process_connection` panics at this frame: of what the peer writes behind it nothing is received.
  -- The crate atoi reads the decimals of a u64, and no read fails.
  pub process_connection-reconnect :
      (n : ℕ) (incoming : List M) (buffer rest bytes : List ℕ) (arrivals : List Arrival)
      → ReadsDecimals atoi
      → AreBytes arrivals
      → write_frame reconnect_frame ≡ done bytes
      → buffer ++ bytes_of arrivals ≡ bytes ++ rest
      → process_connection atoi debug from_slice (suc n) incoming buffer arrivals
        ≡ panicked incoming
  process_connection-reconnect n incoming buffer rest bytes arrivals reads d w e =
      let r =
        write_frame-read_frame atoi reads buffer rest bytes arrivals reconnect_frame
          reconnect-IsWritable d w e in
      process-Reads n incoming buffer rest arrivals reconnect_frame r
      ∙ ap
          (λ o.
            process_message atoi debug from_slice (process_connection atoi debug from_slice n)
              incoming o r.buffer r.arrivals)
          message_in-reconnect
      ∙ process_message-panic _ incoming r.buffer r.arrivals
