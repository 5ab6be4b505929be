-- ===== src/Chat/World.antt =====
-- The routes of actix_send_websocket/examples/websocket-chat2/src/main.rs over one shared server. A
-- route locks the server once in each turn, so a turn is one step.
pub mod Turns
pub mod Sessions
pub mod Reached
use actix_send.Prelude.{ℕ, ◌≡◌, Bool, true, false, [], Option, none, some, update}
use actix_send.WebSocket.{Message, QueueInner, empty_queue}
use actix_send.Chat.Server.{ChatServer, default_server}
use actix_send.Chat.Session.{Received, WsChatSession, new_session, drop_session, on_message}

-- A route that is still to come, one that runs, and one that has dropped its session.
pub data Phase : Type 0 where
  idle over : Phase
  live : WsChatSession → Phase

pub record World : Type 0 where
  pub server : ChatServer
  pub routes : ℕ → Phase

abbrev pub init : World
init = record { server = default_server; routes = λ _. idle }

module _ (accepts : ℕ → ℕ → Message → Bool) where
  -- Route `i` opens, takes one message, or ends: after its return, at the end of its stream, or at an
  -- error of its stream.
  pub data Step (w : World) : World → Type 0 where
    enter :
        (i id tx : ℕ) {s : ChatServer}
        → w.routes i ≡ idle
        → (new_session accepts id tx empty_queue w.server).1 ≡ some s
        → Step w (record {
          server = s;
          routes = update w.routes i (live (new_session accepts id tx empty_queue w.server).0);
        })
    turn :
        (i : ℕ) {r : WsChatSession} (m : Received) {s : ChatServer}
        → w.routes i ≡ live r
        → r.looping ≡ true
        → (on_message accepts m r w.server).1 ≡ some s
        → Step w (record {
          server = s;
          routes = update w.routes i (live (on_message accepts m r w.server).0);
        })
    finish :
        (i : ℕ) {r : WsChatSession} {s : ChatServer}
        → w.routes i ≡ live r
        → drop_session accepts r w.server ≡ some s
        → Step w (record { server = s; routes = update w.routes i over })

  pub data Reach : World → Type 0 where
    start : Reach init
    next : {v w : World} → Reach v → Step v w → Reach w
