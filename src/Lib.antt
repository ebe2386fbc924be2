-- ===== src/Lib.antt =====
-- A distributed key-value store over a replicated log: Sequence Paxos with ballot leader election
-- (omnipaxos_core, omnipaxos_storage) and the server that applies the decided entries
-- (ddbb_server, ddbb_libs).
--
-- The parts and the files that model them:
--   Ballot        `Ballot` and its derived order        omnipaxos_core/src/ballot_leader_election.rs
--   Ble           `BallotLeaderElection`                omnipaxos_core/src/ballot_leader_election.rs
--   Storage       StopSigns, snapshots, errors          omnipaxos_core/src/storage.rs
--   Storage/Memory     `MemoryStorage`                  omnipaxos_storage/src/memory_storage.rs
--   Storage/Persistent `PersistentStorage`              omnipaxos_storage/src/persistent_storage.rs
--   Storage/Internal   `InternalStorage`, writing       omnipaxos_core/src/storage.rs
--   Storage/Read       `InternalStorage`, reading       omnipaxos_core/src/storage.rs, util.rs
--   Messages      all messages                          omnipaxos_core/src/messages.rs
--   LeaderState   `LeaderState`, `PromiseMetaData`      omnipaxos_core/src/util.rs
--   Paxos         `SequencePaxos`, its state            omnipaxos_core/src/sequence_paxos/mod.rs
--   Paxos/Sending, Paxos/Leader                         omnipaxos_core/src/sequence_paxos/leader.rs
--   Paxos/Follower                                      omnipaxos_core/src/sequence_paxos/follower.rs
--   Paxos/Handle  constructor, dispatch, user calls     omnipaxos_core/src/sequence_paxos/mod.rs
--   Cluster       several replicas and the messages     omnipaxos_core/src/sequence_paxos/
--                 between them
--   Omni          `OmniPaxos`                           omnipaxos_core/src/omni_paxos.rs
--   Server        `DDBB`, `KVStore`, `WALStore`         ddbb_server/src/ddbb_server.rs
--   Frame         `Frame`, `serialize`                  ddbb_libs/src/frame.rs
--   Frame/Cursor, Frame/Parser   `check`, `parse`       ddbb_libs/src/frame.rs
--   Frame/Text, Frame/Display    text, `Display`        ddbb_libs/src/frame.rs
--   Connection    `Connection`                          ddbb_libs/src/connection.rs
--   Entries       `FrameCast`                           ddbb_libs/src/data_structure.rs,
--                                                       ddbb_server/src/omni_paxos_server/op_data_structure.rs
--   Simo          `OmniSIMO`                            ddbb_server/src/omni_paxos_server/op_connection.rs
--   Exchange      `OmniPaxosServer`                     ddbb_server/src/omni_paxos_server/mod.rs
--   Shell         the client, and the console of a      ddbb_client/src/main.rs, main/src/main.rs
--                 server
-- The other files hold the helpers (Prelude), theorems, named for what they are about, and their
-- examples.
--
-- How the parts interact: the server proposes entries to its `OmniPaxos`, whose replica appends them
-- as a leader or forwards them. Replicas exchange messages, which a replica keeps in `outgoing` until
-- they are fetched. A timeout of the election hands a new leader's ballot to the replica. The server
-- reads the decided suffix of the replica's log from its own index on, and applies it to its table and
-- to its log of applied entries. The messages of a replica go into the outgoing buffer of its
-- `OmniSIMO`, whose senders, one for each peer, write them as entries, in frames, to their connections;
-- a task for each incoming connection reads frames, and puts the messages into the incoming buffer.
--
-- Correspondence: a struct is a record with the source's fields, an operation a function of that name
-- from the old state to the new one. A match arm or a loop that needs its own recursion or cases is a
-- helper beside it. Code that may panic returns an `Outcome`, `done` or `panic`: index arithmetic on
-- u64 and u32 is checked as in a debug build, slices and unwraps panic as in Rust, and an
-- `unimplemented!` is a panic. Vectors are lists, a `HashMap` is an association list. The feature
-- batch_accept is on, as by default. Most loops are structural recursion on the list that the source
-- iterates over, or, in `read_frame`, on the reads of the socket. Three functions take fuel: `check` and
-- `parse`, for arrays in arrays, each level of which takes a byte, so one more than the number of bytes
-- is enough; and `process_connection`, one for each frame and one for the end of the stream. In the
-- frames and entries a `String` is the list of its UTF-8 bytes. The senders run side by side: each step
-- of the relation in Simo/Steps is what one of them does between two points where others can run.
--
-- The storage of the replica is `MemoryStorage`, which the server uses; `PersistentStorage` is modelled
-- beside it, over a record of what it calls of its crates. The trait `Snapshot` is an argument of the
-- code that calls it, since its implementations for other types are not in the repository; the server
-- takes the one of `()`, whose functions panic.
--
-- The cluster is a family of replicas by their pids and the list of all messages that were ever sent. A
-- step is one call on one replica, which may receive any message of the list that is for it, so the
-- network loses, repeats, delays and reorders messages as it likes; and a replica may be told to lead
-- any ballot, whatever its election does. The replicas start without a pre-elected leader and with
-- nothing accepted, and none of them restarts with its storage.
--
-- Parameters that stand for crates: atoi (`atoi::<u64>`), serde_json (`to_vec` and `from_slice`), the
-- `Debug` of the crate bytes and that of `String`, and, for the persistent storage, commitlog, sled or
-- rocksdb, bincode and zerocopy. Of commitlog's `truncate` what its documentation says is taken: the log
-- keeps the entries up to the offset given, that one included.
--
-- Not modelled: logging and printing; the buffer sizes, which only reserve memory; the sockets beyond
-- the bytes that they bring, the listeners, the timers and the waits; the opening and the
-- configuration of the persistent storage; the terminals, and the options of the command line.
pub mod Prelude
pub mod Ballot
pub mod Storage
pub mod Messages
pub mod LeaderState
pub mod Paxos
pub mod Ble
pub mod Omni
pub mod Server
pub mod Frame
pub mod Connection
pub mod Entries
pub mod Simo
pub mod Exchange
pub mod Cluster
pub mod Shell
