-- ===== src/Exchange.antt =====
-- ddbb_server/src/omni_paxos_server/mod.rs: `OmniPaxosServer`, which runs a replica and its connections. The
-- loop of `run` waits for one of three events; an arm of its select is a function on the state.
mod Examples
pub mod Runs
use ik2203_distributed_coord.Prelude.{Option, none, some, List, Outcome, done, ◌>>=◌}
use ik2203_distributed_coord.Storage.{Snapshot}
use ik2203_distributed_coord.Messages.{Message}
use ik2203_distributed_coord.Omni.{OmniPaxos, election_timeout, outgoing_messages, handle_incoming}
use ik2203_distributed_coord.Simo.{OmniSimo, receive_message, send_outgoing_msgs}

pub record OmniPaxosServer (T S : Type 0) : Type 0 where
  pub omni_paxos_instance : OmniPaxos T S
  pub omni_simo : OmniSimo (Message T S)

pub data Arm : Type 0 where
  election_tick outgoing_tick in_msg : Arm

module _ {T S : Type 0} ⦃snap : Snapshot T S⦄ where
  -- Without a message `receive_message` goes on waiting.
  unfoldable pub handle_received :
      OmniPaxosServer T S
      → Option (Message T S) × OmniSimo (Message T S)
      → Outcome (OmniPaxosServer T S)
  handle_received s (none, simo) = done s
  handle_received s (some m, simo) = do
    o ← handle_incoming s.omni_paxos_instance m
    done (record s { omni_paxos_instance = o; omni_simo = simo })

  unfoldable pub run_arm : Arm → OmniPaxosServer T S → Outcome (OmniPaxosServer T S)
  unfolding handle_received
  run_arm election_tick s = do
    o ← election_timeout s.omni_paxos_instance
    done (record s { omni_paxos_instance = o })
  run_arm outgoing_tick s =
      let (o, messages) = outgoing_messages s.omni_paxos_instance in
      done
        (record s { omni_paxos_instance = o; omni_simo = send_outgoing_msgs messages s.omni_simo })
  run_arm in_msg s = handle_received s (receive_message s.omni_simo)
