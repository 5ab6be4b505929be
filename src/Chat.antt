-- ===== src/Chat.antt =====
-- actix_send_websocket/examples/websocket-chat2: the chat server that every route shares, a route's
-- session, and the routes that interleave over one server.
pub mod Server
pub mod Session
pub mod World
mod Checks
