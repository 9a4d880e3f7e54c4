-- ===== src/Lib.antt =====
-- ractor-wormhole connects actors of different processes. This library models its core: the portal,
-- which is the actor at one end of a conduit; the nexus, which owns the portals of a process; and the
-- codecs that turn messages into bytes and back; the proxies that stand for what is remote; the conduits
-- that carry the bytes; the code that the derive macro writes; and the chat server built with them.
--
-- How the parts interact. The nexus starts a portal for each conduit and answers its queries for
-- names. A portal sends its introduction, opens when it reads the other side's, and from then on looks
-- up actors by name, forwards messages to published actors, and reports those that exit. A message's
-- bytes are made and read by the codecs, with which every type of a message is composed. An actor
-- reference or a reply port in a message becomes the id of a published actor, and a proxy on the other
-- side. A conduit writes a portal's messages as frames; its receive loop gives the other portal what it
-- reads, and tells it when the conduit is closed.
--
-- Files and sources (paths from the repository's root):
--   Prelude           numbers' tests, lists, integers, and HashMap as an association list
--   Outcome           Result with anyhow::Error, and panics; Outcome.Action is code that changes a
--                     state and may fail, which keeps the state that it has when it fails
--   Platform          usize: its width, overflow with and without checks, slices
--   Transmaterialization   ractor_wormhole/src/transmaterialization
--     LeBytes         to_le_bytes and from_le_bytes of the standard library
--     Util            util.rs
--     Prefixed        one part behind its length, as Vec, the tuples, Option and Result write it
--     Codec           mod.rs, the trait ContextTransmaterializable: `Crosses` says that a value is
--                     sent as some bytes, and that these bytes are received as a value
--     Vec, Scalars, Text, Choices, Capacity   default_implementations.rs
--     Utf8            the check of String::from_utf8
--     Tuples          default_impl_tupl.rs, one definition for each number of elements
--     Hostile, Vec.Hostile   buffers that no encoder wrote
--   Portal            ractor_wormhole/src/portal.rs
--     Types           its messages and state, and RemoteActorId of nexus.rs
--     Env             what the libraries and the other actors answer: bincode, serde_json, uuid, the
--                     sink, the reply ports, the nexus
--     Wire            internal_serializations.rs, and xor_arrays
--     Handle          PortalActor::handle, with one function for each message and each frame
--     Registry        publish_actor
--     Runs            the states that sequences of messages lead to
--     Cases, Framed, InState, Invariant, Gate, Protocol, Sides, Answers, Lookup, Exit
--                     what is proved about it
--   Nexus             ractor_wormhole/src/nexus.rs: NexusActor::handle and handle_supervisor_evt
--   Proxy             what a codec does through its context
--     World           a portal with its mailbox, and the actors and ports that a codec makes
--     ActorRef, ReplyPort   transmaterialization/mod.rs, and RemoteActorId's bytes
--     RpcProxy        transmaterialization/rpc_proxy.rs
--     Delivery        instantiate_proxy_for_remote_actor of portal.rs, and the way of a message
--     Call            the way of an answer, and what comes too late
--   Conduit           ractor_wormhole/src/conduit
--     Message, ReceiveLoop   mod.rs
--     Connect         from_sink_source of mod.rs, and the server of unix_socket/server.rs
--     Bytestream      what the byte streams use of tokio
--     Frame           what a frame is, and what a portal is to get from frames
--     UnixSocket      unix_socket/client.rs and server.rs
--     Ssh             ssh/client.rs
--     WebSocket       websocket/client/tokio_tungstenite.rs and websocket/server/tokio_tungstenite.rs
--   Derive            ractor_wormhole_derive/src/derive_wormhole_serializable.rs
--     Item            what the macro is applied to
--     Names           the names in the code that it writes for named fields
--     ReadField, Fields, Structs, Enums   the code that it writes
--     Expand          whether it writes any
--   Combinators       ractor_wormhole/src/util/combinators
--   Chat              chat_app/server/src/alias_gen.rs, chat_server.rs and hub.rs
-- The modules called Tests apply the theorems to concrete values.
--
-- State. A handler is a function from a state to a result and a state. What it does to others (what it
-- sends, replies, watches, stops) is appended to the list `effects` of the state, in order. A reply is
-- recorded as an attempt, since its port may be closed. Log output is left out.
--
-- Bounds. Numbers are natural numbers; a u64 or usize that wraps has its modulus written out. The loop
-- of Vec::rematerialize runs on fuel, one more than the buffer's length: each round that
-- goes on reads eight bytes at least, and Vec.Termination is about the fuel. The release build's
-- wrapping counter of requests is modelled, not the debug build's panic. The capacities that the codecs
-- of Vec and String ask for are modelled (those of the others are a few bytes); what a buffer needs when
-- it grows is the allocator's, and left out.
--
-- The receive loop runs on fuel as well: each turn that goes on reads one byte at least, or one message.
-- A byte stream is the list of the bytes that come before its end, with the error that ends it.
--
-- Not modelled: the actor runtime, and the libraries that connect, listen and authenticate; the
-- browser's websocket client; the generics of the derive macro, and what its code does
-- where one name in it hides another; the function actors and `ask`, which
-- hand a mailbox to a closure; the user interfaces of the chat; the other example
-- applications. ResponseActorById is handled, but as in the source no request for it exists.
pub mod Prelude
pub mod Outcome
pub mod Platform
pub mod Transmaterialization
pub mod Portal
pub mod Nexus
pub mod Proxy
pub mod Conduit
pub mod Derive
pub mod Combinators
pub mod Chat
