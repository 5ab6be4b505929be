-- ===== src/Lib.antt =====
-- actix_send, an actor library for async Rust, its procedural macros and its WebSocket companion crate.
--
-- A set of actors is one `ActorState` (src/actor.rs) that every context and every address shares. The
-- contexts (src/context.rs) receive from one channel, and from a broadcast channel each if broadcasts are
-- allowed; addresses (src/address.rs) send to these channels and count who still owns a sender. A context
-- that handles a delayed or an interval message spawns a cancelable task (src/util/future_handle.rs) and
-- leaves its handler in the shared state, where a shutdown cancels it. The WebSocket crate
-- (actix_send_websocket/src/lib.rs) reads frames from a client with a heartbeat, and encodes messages to it
-- from a local queue and from a channel. The macros write the message and result enums of an actor and the
-- handler that dispatches a message to the user's method.
--
-- Files, and the code that they follow:
--   Error: src/error.rs. A fallible function answers a `Result`, with a `do` block for `?`.
--   Builder: `Config` and the setters of src/builder.rs. A duration is a natural number of ticks.
--   Message: src/object.rs and the message types of src/context.rs. `Program` is the user's actor: its
--     message handler, hooks and closures as functions of the actor's state.
--   Shared: `ActorState` of src/actor.rs with what tasks share. The tasks that were spawned and the effects
--     that others see (answers, wake-ups, messages sent) are lists; the newest effect comes first.
--   FutureHandle: src/util/future_handle.rs. A waker is a number, a `Lock` cell a numbered record.
--   Actor: the counter `active`, `push_handler` and `shutdown` of src/actor.rs. Elsewhere
--     `push_handler` is one step; Actor/Late has a shutdown between its check and its lock. Actor/Race has
--     the compare-exchange loop of `modify_active` as a step relation, in which one access to the word is
--     one step and any number of contexts and addresses interleave.
--   Interval: src/interval.rs. The map is an association list.
--   Context: src/context.rs. `turn` is what the task of `spawn_loop` does for one event; Context/Fleet
--     interleaves the turns of all contexts, Context/Tasks polls the tasks that a context spawned,
--     Context/Serving feeds it messages in order, Context/Isolation feeds all contexts in any
--     interleaving, Context/Closing closes one of them.
--   Runtime: src/util/runtime.rs and the sending of src/sender.rs, over the answers of the runtime.
--   Subscribe: src/subscribe.rs. Address: src/address.rs; Address/Life has histories of owners, Address/Send
--     the methods that send. Stream: src/stream.rs. Start: `start` and `start_with_arbiters` of
--     src/builder.rs.
--   WebSocket: the configuration and the local queue of actix_send_websocket/src/lib.rs, with HeartBeat,
--     Decode, Encode and Handshake for the types and functions of these names (Decode/Silence polls the stream
--     of a silent client when its timer wakes it), Split for `split_stream` and the extractor, and Sender for
--     `WebSocketSender` and `TryNext`.
--   Chat: the chat example, actix_send_websocket/examples/websocket-chat2. Server is server.rs, Session the
--     session of main.rs and one turn of its loop, World the routes of main.rs over the shared server. A
--     route locks the server once in a turn, so turns interleave as a step relation.
--   Benchmark: the command line of examples/benchmark.rs.
--   Text: texts as lists of codes, and what the code calls of `str` and `[u8]`.
--   Macros: the procedural macros of actix-send-macros/src/lib.rs and message.rs, from syntax tree to syntax
--     tree. Syntax has the part of `syn` that they use; a part of the user's code that they only move, such
--     as the body of a method, is a number. Build has the helper functions, Args the flags of an attribute,
--     Equal the equality of attributes. Info and HandlerTrait are message.rs, HandlerV2 `handler_v2`,
--     Attributes `actor` and `handler`. `actor_mod` is MessageAttr and ModMessages, which collect the
--     messages, ModConversions and ActorMod. Meaning is no code of the repository: it runs the code that the
--     macros write, on any bodies of the user.
--   Sample, Macros/Counter and the modules named Checks hold concrete instances; WebSocket/Handshake/UnitTest
--     is the unit test of the handshake, Context/UnitTest and Address/UnitTest are two tests of tests/actor.rs.
--
-- Bounds: a `usize` is a natural number below 2 ^ 64 with its wrap-around written out. The counter of
-- actors holds two units an actor and the marker, so theorems on it take fewer than 2 ^ 62 contexts; theorems
-- on address counts take histories of fewer than 2 ^ 64 - 1 operations. The decode stream of a silent client
-- is polled `timeout + 2` times, which is enough since each poll behind the first moves its timer by at least
-- one tick. The stack that `Display` may use is any number of frames, and its writer may refuse any write. In
-- the chat server `send_message`, `exit_rooms` and `disconnect` call one another; the fuel is one more than
-- the number of sessions, which is enough since each `disconnect` that goes on removes one. The loop of
-- `collect_arg` has one round more than there are arguments.
--
-- Parameters: the answers of the channels, also to the messages that a task sends, and of the runtime, the
-- order in which unordered futures finish, the WebSocket codec, how late a timer wakes its task, whether a
-- send of the chat server finds its receiver alive, the request of a handshake with its headers, the parser
-- of types that `actor_mod` calls, and `select` of futures_util are arguments, and what the code relies on is
-- a field of their record.
--
-- Not modelled: generics, visibility, lifetimes and spans in the macros, raw identifiers, and the parsing
-- and printing of token streams; receivers, channels and locks (src/receiver.rs, src/util/channel.rs,
-- src/util/smart_pointer.rs), which wrap other libraries; examples/basic.rs, the
-- measured runs of examples/benchmark.rs, the setup of the chat example's HTTP server, and the
-- integration tests.
-- Memory orderings weaker than sequential consistency are not modelled.
pub mod Prelude
pub mod Text
pub mod Error
pub mod Builder
pub mod Message
pub mod Shared
mod Sample
pub mod FutureHandle
pub mod Actor
pub mod Interval
pub mod Context
pub mod Runtime
pub mod Subscribe
pub mod Address
pub mod Stream
pub mod Start
pub mod WebSocket
pub mod Chat
pub mod Benchmark
pub mod Macros
