-- ===== src/Lib.antt =====
-- Verification of the SaltyRTC client (the crate in src/): the signaling protocol by which two
-- clients, an initiator and a responder, authenticate each other through a server that neither
-- trusts, agree on a task and then exchange that task's messages, sealed end to end.
--
-- The parts. A message arrives as bytes, which `ByteBox::from_slice` splits into a nonce and sealed
-- data. `Signaling::handle_message` validates the nonce (source, destination, combined sequence
-- number, cookie), picks the key that opens the data by the source and the state of the handshake,
-- decodes the message, and passes it to the handler of the server's or of the peer's messages. A
-- handler changes the state and gives a list of actions for the caller: replies, errors, events. In
-- the task state the messages go to the chosen task. A `SaltyClient` wraps the signaling; first
-- `do_handshake` and then `task_loop` run it on a WebSocket and carry its actions out.
--
-- Where the parts are (paths of the repository):
--   Errors       src/errors.rs: `SignalingError`, `SignalingInitError`, `BuilderError`
--   Types        src/protocol/types.rs: `Role`, `ClientIdentity`, `Address`, `HandleAction`
--   State        src/protocol/state.rs: the states and `may_transition_to`
--   CloseCode    src/close_code.rs
--   Csn          src/protocol/csn.rs: `CombinedSequence`, its snapshots and pairs
--   Cookie       src/protocol/cookie.rs
--   Nonce        src/protocol/nonce.rs: `from_bytes`, `into_bytes`
--   SendErrorId  src/protocol/send_error.rs
--   Crypto       src/crypto_types.rs: `KeyPair`, `AuthToken`, `UnsignedKeys`; Crypto/Hex: hex
--                strings of keys
--   Messages     src/protocol/messages.rs; Messages/Builders: the builders of `auth` messages
--   Boxes        src/boxes.rs: `OpenBox`, `ByteBox`, sealing and opening
--   Tasks        src/tasks.rs: the list of tasks, and the choice of one
--   Context      src/protocol/context.rs: server, initiator and responder contexts
--   Signaling    src/protocol/mod.rs: `Common`, `InitiatorSignaling`, `ResponderSignaling`, with
--     New          both `new`
--     Peers        `get_peer`, `get_peer_with_address_mut` and what they give access to
--     Validate     `validate_nonce` and its parts
--     Encode       nonces and messages that are sent
--     Decode       which key opens what
--     Server       the server handshake
--     Paths        the initiator's table of responders
--     Initiator, Responder   the peer handshake, by role
--     Handle       `handle_message` and the dispatch below it
--   Client       src/lib.rs: `SaltyClientBuilder`, `SaltyClient`, with
--     WebSocket    `decode_ws_message`, `preprocess_ws_message`, the subprotocol check of `connect`
--     Handshake    `do_handshake`
--     TaskLoop     `task_loop`: its reader and its transformer
--   SendAll      src/send_all.rs: the future that sends a stream of values
--   Chat         examples/chat/chat_task.rs: the chat example's task, an implementation of `Task`
-- A module below one of these is about its theory. Signaling/Invariant says when the state is
-- well-formed, and its children are about the operations on such a state; Signaling/Reach has the
-- step relation: the states that a sequence of messages leads to; Signaling/Replies says which
-- actions a message may give in which state. Runs has concrete runs.
--
-- How the state corresponds. A `&mut self` method that returns `Result` is a function from the state
-- to an outcome (Prelude/Effects): a value with the state after it, an error with the state after
-- it, since an early return by `?` undoes nothing, or a panic, which leaves no state. Each
-- `unwrap`, `expect`, `panic!`, `assert!` and `unimplemented!` of the handlers is a panic of the
-- model, by its place. The trait `Signaling` with its two implementations is a data type with one
-- constructor per role, and the methods that a role overrides branch on it. A `HashMap` is an
-- association list; where the code iterates one, the order is a parameter (`iter_order`). The random
-- number generator of libsodium is global: its state is an extra field of `Common`. A handler that
-- is long in the source is cut into definitions, one after the other in the order of the source.
--
-- The loops. A future is a loop over what it has met so far: `do_handshake` over a list of turns,
-- the reader over the items of the socket's stream, the transformer over the messages of its
-- channel. Each turn also says what the outside does with what the loop sends: whether a channel
-- still has its receiver, and after how many messages a write to the socket fails. A loop that is
-- not at its end after its list waits for more. What is written is in the state. In `SendAll` the
-- polls are explicit: a sink is a record of its two calls, and a stream is the list of what its polls
-- give.
--
-- Numbers. Addresses, cookies and keys are bytes, numbers below 256, or lists of them; a cookie has
-- 16 bytes, a nonce 24. A combined sequence number is an overflow number of 16 bits and a sequence
-- number of 32 bits, and the counter of responders has 32 bits; where the source adds to one, the
-- width is written out. All recursion is structural, so there is no fuel.
--
-- Parameters. External has the crates: byteorder, rust_sodium, rmpv, data_encoding. Deps adds what
-- rmp_serde does with the types that derive serde's traits, the trait `Task`, which applications
-- implement, and the order in which hash tables are iterated. A theorem that needs more of them
-- takes their documented laws as a hypothesis; External/Examples has packages that fulfil these.
--
-- Not modelled: in src/lib.rs the connection that `connect` makes, the timer of `do_handshake`,
-- the third future of `task_loop`, which forwards its channel to the socket, and the order in
-- which the runtime polls the three; the C interface in ffi/; the terminal interface of the chat
-- example; logging, the texts of errors, `Display` and serde. Locks are not modelled, since each
-- call has the client to itself. The ping interval is in whole seconds.
pub mod Prelude
pub mod Errors
pub mod Types
pub mod State
pub mod CloseCode
pub mod External
pub mod Csn
pub mod Cookie
pub mod Nonce
pub mod SendErrorId
pub mod Crypto
pub mod Messages
pub mod Deps
pub mod Tasks
pub mod Boxes
pub mod Context
pub mod Signaling
pub mod Client
pub mod SendAll
pub mod Chat
pub mod Runs
