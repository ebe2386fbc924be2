-- ===== src/Simo.antt =====
-- ddbb_server/src/omni_paxos_server/op_connection.rs: `OmniSIMO`, through which a server sends to its peers
-- and receives from them. The messages are of a type `M` with their receivers, as the server's messages
-- are with `get_receiver`; serde_json is `to_vec` and `from_slice`, as in Entries.
pub mod Steps
mod Sound
pub mod Senders
pub mod Delivery
mod Examples
use ik2203_distributed_coord.Prelude.{
  ℕ, zero, suc, ◌+◌, ◌/◌, List, [], ◌∷◌, ◌++◌, length, leb, ◌==◌, ◌||◌, Bool, false, if◌then◌else◌,
  Outcome, done, panic, ◌>>=◌, Option, none, some, unwrap,
}
use ik2203_distributed_coord.Frame.{Frame, error}
use ik2203_distributed_coord.Connection.{
  Arrival, Answer, frame, closed_by_peer, data_remain, err, panicking, endless, read_frame,
  reconnect_msg, write_frame,
}
use ik2203_distributed_coord.Entries.{ok, err as cast_err, json_from_frame, omni_message_entry}

-- What a sender, one task for each peer, is about to do: connect; look at the buffer; take the first
-- message, which it found to be its own; write the message that it took; or connect again.
pub data Phase (M : Type 0) : Type 0 where
  connecting : Phase M
  looking : Phase M
  taking : Phase M
  writing : M → Phase M
  reconnecting : Phase M

-- `OmniSIMO`, less the addresses, with the phases of its senders. `written` is what the senders wrote
-- without an error, the receiver with the message.
pub record OmniSimo (M : Type 0) : Type 0 where
  pub connected : List ℕ
  pub outgoing_buffer : List M
  pub incoming_buffer : List M
  pub phase : ℕ → Phase M
  pub written : List (ℕ × M)

-- `connected.contains(..)` and `connected.retain(|x| x != ..)`
unfoldable pub contains : List ℕ → ℕ → Bool
contains [] id = false
contains (x ∷ xs) id = x == id || contains xs id

unfoldable pub without : List ℕ → ℕ → List ℕ
without [] id = []
without (x ∷ xs) id = let rest = without xs id in if x == id then rest else x ∷ rest

module _ {M : Type 0} where
  unfoldable pub set_phase : (ℕ → Phase M) → ℕ → Phase M → ℕ → Phase M
  set_phase phase id p other = if other == id then p else phase other

  unfoldable pub new_simo : OmniSimo M
  new_simo = record {
    connected = [];
    outgoing_buffer = [];
    incoming_buffer = [];
    phase = λ id. connecting;
    written = [];
  }

  unfoldable pub send_message : M → OmniSimo M → OmniSimo M
  send_message m s = record s { outgoing_buffer = s.outgoing_buffer ++ m ∷ [] }

  -- one poll of `receive_message`
  unfoldable pub receive_message : OmniSimo M → Option M × OmniSimo M
  receive_message s = elim s.incoming_buffer [
    | [] ↦ (none, s)
    | m ∷ rest ↦ (some m, record s { incoming_buffer = rest })
  ]

  -- `send_outgoing_msgs` of mod.rs, with the messages of the replica
  unfoldable pub send_outgoing_msgs : List M → OmniSimo M → OmniSimo M
  unfolding send_message
  send_outgoing_msgs [] s = s
  send_outgoing_msgs (m ∷ messages) s = send_outgoing_msgs messages (send_message m s)

  -- The sender of `id` is connected, for the first time or again.
  unfoldable pub connect : ℕ → OmniSimo M → OmniSimo M
  unfolding set_phase
  connect id s = record s { connected = id ∷ s.connected; phase = set_phase s.phase id looking }

  -- The sender takes the first message of the buffer, whatever that is.
  unfoldable pub take_front : ℕ → OmniSimo M → Outcome (OmniSimo M)
  unfolding set_phase
  take_front id s = elim s.outgoing_buffer [
    | [] ↦ panic
    | m ∷ rest ↦
        done (record s { outgoing_buffer = rest; phase = set_phase s.phase id (writing m) })
  ]

  -- `write_frame` returned without an error, and with one.
  unfoldable pub write_done : ℕ → M → OmniSimo M → OmniSimo M
  unfolding set_phase
  write_done id m s = record s {
    written = s.written ++ (id, m) ∷ [];
    phase = set_phase s.phase id looking;
  }

  unfoldable pub write_failed : ℕ → OmniSimo M → OmniSimo M
  unfolding without set_phase
  write_failed id s = record s {
    connected = without s.connected id;
    phase = set_phase s.phase id reconnecting;
  }

  module _ (receiver : M → ℕ) where
    -- What the sender of `id` does while it holds the lock of the buffer.
    unfoldable pub look_at : ℕ → List M → OmniSimo M → OmniSimo M
    unfolding contains set_phase
    look_at id [] s = s
    look_at id (m ∷ rest) s =
        if contains s.connected (receiver m)
        then (if receiver m == id then record s { phase = set_phase s.phase id taking } else s)
        else record s { outgoing_buffer = rest }

    unfoldable pub look : ℕ → OmniSimo M → OmniSimo M
    unfolding look_at
    look id s = look_at id s.outgoing_buffer s

-- The condition on which `start_sender` returns; `peers` is the number of peers.
unfoldable has_majority : List ℕ → ℕ → Bool
has_majority connected peers = leb ((peers + 1) / 2 + 1) (length connected)

-- `Connection::reconnect` sends this frame first.
abbrev pub reconnect_frame : Frame
reconnect_frame = error reconnect_msg

-- How `process_connection` ends, with the buffer of incoming messages.
pub data Ended (M : Type 0) : Type 0 where
  dropped : List M → Ended M
  panicked : List M → Ended M
  out_of_fuel : Ended M

module _ {M : Type 0} (atoi : List ℕ → Option ℕ) (debug : List ℕ → List ℕ)
    (from_slice : List ℕ → Option M) where
  -- `OmniMessageEntry::from_frame(&msg_frame).unwrap()`
  unfoldable pub message_in : Frame → Outcome M
  unfolding json_from_frame
  message_in f = do
    entry ← json_from_frame debug from_slice omni_message_entry f
    elim entry [ ok m ↦ done m | cast_err e ↦ panic ]

  -- one frame; `next` is the next round of the loop
  unfoldable pub process_message :
      (List M → List ℕ → List Arrival → Ended M)
      → List M
      → Outcome M
      → List ℕ
      → List Arrival
      → Ended M
  process_message next incoming (done m) buffer arrivals = next (incoming ++ m ∷ []) buffer arrivals
  process_message next incoming panic buffer arrivals = panicked incoming

  unfoldable process_answer : (List M → List ℕ → List Arrival → Ended M) → List M → Answer → Ended M
  unfolding process_message message_in
  process_answer next incoming (frame f buffer arrivals) =
      process_message next incoming (message_in f) buffer arrivals
  process_answer next incoming closed_by_peer = dropped incoming
  process_answer next incoming data_remain = dropped incoming
  process_answer next incoming err = dropped incoming
  process_answer next incoming panicking = panicked incoming
  process_answer next incoming endless = out_of_fuel

  -- The loop of `process_connection`, each round of which reads a frame.
  unfoldable pub process_connection : ℕ → List M → List ℕ → List Arrival → Ended M
  unfolding process_answer
  process_connection zero incoming buffer arrivals = out_of_fuel
  process_connection (suc fuel) incoming buffer arrivals =
      process_answer (process_connection fuel) incoming (read_frame atoi buffer arrivals)
