-- ===== src/Entries/Examples.antt =====
-- Commands on the wire.
use ik2203_distributed_coord.Prelude.{ℕ, ◌≡◌, refl, List, true, control}
use ik2203_distributed_coord.Frame.Text.{codes, is_utf8}
use ik2203_distributed_coord.Entries.{ok, success, message_from_frame, message_to_frame}
use ik2203_distributed_coord.Entries.RoundTrip.{message_round_trip}

abbrev debug : List ℕ → List ℕ
debug s = codes "b"

text_x : is_utf8 (codes "x") ≡ true
unfolding is_utf8 control
text_x = refl

message_round_trip_example :
    message_from_frame debug (message_to_frame (success (codes "ok"))) ≡ ok (success (codes "ok"))
message_round_trip_example = message_round_trip debug (success (codes "ok"))
