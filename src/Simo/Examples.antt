-- ===== src/Simo/Examples.antt =====
-- Two senders over one buffer, and a receiver of two messages. A message is its receiver.
use ik2203_distributed_coord.Prelude.{
  ℕ, ◌≡◌, refl, arith, List, [], ◌∷◌, ◌++◌, control, done, Option, some, none, map, inl,
}
use ik2203_distributed_coord.Frame.{count}
use ik2203_distributed_coord.Frame.Text.{codes, crlf, to_string}
use ik2203_distributed_coord.Frame.Decimal.{decimal, decimal-ReadsDecimals}
use ik2203_distributed_coord.Connection.{write_frame, received}
use ik2203_distributed_coord.Entries.{json_to_frame}
use ik2203_distributed_coord.Simo.{
  OmniSimo, looking, taking, writing, new_simo, send_message, connect, look, set_phase, contains,
  take_front, dropped, panicked, process_connection, reconnect_frame,
}
use ik2203_distributed_coord.Simo.Steps.{
  Run, start, queues, connects, looks, Fate, message_of, queued-in_order, discards,
}
use ik2203_distributed_coord.Simo.Senders.{Run-IsSound, take_front-runs}
use ik2203_distributed_coord.Simo.Sound.{IsSound}
use ik2203_distributed_coord.Simo.Delivery.{
  write_all, process_connection-receives, process_connection-reconnect,
}

abbrev receiver : ℕ → ℕ
receiver m = m

unfoldable simo : Unit {0}
unfolding new_simo send_message connect look set_phase contains take_front control
simo = tt

-- The sender of 2 is connected, that of 3 is not; a message for each waits.
abbrev waiting : OmniSimo ℕ
waiting = connect 2 (send_message 2 (send_message 3 new_simo))

waiting-Run : Run receiver waiting (3 ∷ (2 ∷ [])) []
unfolding simo
waiting-Run = connects _ _ _ 2 (queues _ _ _ 2 (queues _ _ _ 3 start)) (inl refl)

waiting-looking : waiting.phase 2 ≡ looking
unfolding simo
waiting-looking = refl

abbrev after_first : OmniSimo ℕ
after_first = look receiver 2 waiting

first-Run :
    Run receiver after_first
      (3 ∷ (2 ∷ []))
      (discards receiver waiting.connected waiting.outgoing_buffer)
first-Run = looks _ _ _ 2 waiting-Run waiting-looking

first-looking : after_first.phase 2 ≡ looking
unfolding simo
first-looking = refl

-- The message for 3 was discarded, and the sender of 2 has found its own.
abbrev found : OmniSimo ℕ
found = look receiver 2 after_first

abbrev fates : List (Fate ℕ)
fates =
    discards receiver waiting.connected waiting.outgoing_buffer
    ++ discards receiver after_first.connected after_first.outgoing_buffer

found-Run : Run receiver found (3 ∷ (2 ∷ [])) fates
found-Run = looks _ _ _ 2 first-Run first-looking

found-taking : found.phase 2 ≡ taking
unfolding simo
found-taking = refl

queued-in_order_example : (3 ∷ (2 ∷ [])) ≡ map message_of fates ++ found.outgoing_buffer
queued-in_order_example = queued-in_order receiver found (3 ∷ (2 ∷ [])) fates found-Run

Run-IsSound_example : IsSound receiver found
Run-IsSound_example = Run-IsSound receiver found (3 ∷ (2 ∷ [])) fates found-Run

take_front-runs_example :
    (m : ℕ) × (t : OmniSimo ℕ) × (take_front 2 found ≡ done t)
    × (t.phase 2 ≡ writing m)
    × (receiver m ≡ 2)
take_front-runs_example =
    take_front-runs receiver found (3 ∷ (2 ∷ [])) fates 2 found-Run found-taking

-- A message is one byte as serde_json would write it.
abbrev to_vec : ℕ → List ℕ
to_vec m = m ∷ []

abbrev from_slice : List ℕ → Option ℕ
from_slice (m ∷ []) = some m
from_slice _ = none

abbrev debug : List ℕ → List ℕ
debug s = []

abbrev entry_bytes : ℕ → List ℕ
entry_bytes m =
    codes "*2" ++ crlf ++ codes "+OmniMessageEntry" ++ crlf ++ codes "$1" ++ crlf ++ m ∷ crlf

write_all_bytes : write_all to_vec (5 ∷ (6 ∷ [])) ≡ done (entry_bytes 5 ++ (entry_bytes 6 ++ []))
unfolding write_all write_frame json_to_frame to_string count control
write_all_bytes = refl

process_connection-receives_example :
    process_connection decimal debug from_slice 3 (4 ∷ []) [] (
      received (codes "*2")
      ∷ (received (
            crlf
            ++ codes "+OmniMessageEntry"
            ++ crlf
            ++ codes "$1"
            ++ crlf
            ++ 5 ∷ (crlf ++ entry_bytes 6))
          ∷ []))
    ≡ dropped (4 ∷ [] ++ 5 ∷ (6 ∷ []))
process_connection-receives_example =
    process_connection-receives decimal debug from_slice to_vec (5 ∷ (6 ∷ [])) 3 (4 ∷ []) []
      (entry_bytes 5 ++ (entry_bytes 6 ++ []))
      (received (codes "*2")
        ∷ (received (
              crlf
              ++ codes "+OmniMessageEntry"
              ++ crlf
              ++ codes "$1"
              ++ crlf
              ++ 5 ∷ (crlf ++ entry_bytes 6))
            ∷ []))
      decimal-ReadsDecimals (λ m. refl) (omega arith, (omega arith, tt)) tt (omega arith)
      write_all_bytes refl

reconnect_bytes : write_frame reconnect_frame ≡ done (codes "-##RECONNECT" ++ crlf)
unfolding write_frame control
reconnect_bytes = refl

process_connection-reconnect_example :
    process_connection decimal debug from_slice 1
      (4 ∷ [])
      []
      (received (codes "-##RECONNECT" ++ crlf ++ entry_bytes 5) ∷ [])
    ≡ panicked (4 ∷ [])
process_connection-reconnect_example =
    process_connection-reconnect decimal debug from_slice 0 (4 ∷ []) [] (entry_bytes 5)
      (codes "-##RECONNECT" ++ crlf) (received (codes "-##RECONNECT" ++ crlf ++ entry_bytes 5) ∷ [])
      decimal-ReadsDecimals tt reconnect_bytes refl
