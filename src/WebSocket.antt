-- ===== src/WebSocket.antt =====
-- actix_send_websocket/src/lib.rs: the messages, the local queue and the configuration of a web
-- socket. The other parts of the file are the children.
pub mod HeartBeat
pub mod Decode
pub mod Encode
pub mod Handshake
pub mod Split
pub mod Sender
mod Checks
use actix_send.Prelude.{
  ◌≡◌, refl, ◌==◌, ℕ, ◌+◌, Bool, true, false, List, [], ◌∷◌, ◌++◌, Option, none, some,
}
use actix_send.Builder.{Duration, from_secs}

-- A byte is a number below 256.
abbrev pub Bytes : Type 0
Bytes = List ℕ

-- `Message` and `Frame`, with one constructor for each variant that the source names. A close reason
-- and a continuation item are passed on as they are.
pub data Message : Type 0 where
  text binary ping pong : Bytes → Message
  close : Option ℕ → Message
  continuation : ℕ → Message

-- `QueueInner` behind `WebSocketLocalQueue`, with the wakers that were woken, newest first.
pub record QueueInner : Type 0 where
  pub queue : List Message
  pub waker : Option ℕ
  pub woken : List ℕ

-- `WebSocketLocalQueue::new`
abbrev pub empty_queue : QueueInner
empty_queue = record { queue = []; waker = none; woken = [] }

-- `push_back`
unfoldable pub push_back : Message → QueueInner → QueueInner
push_back m q = record q { queue = q.queue ++ m ∷ [] }

-- `pop_front`
unfoldable pub pop_front : QueueInner → Option Message × QueueInner
pop_front q = elim q.queue [ [] ↦ (none, q) | m ∷ ms ↦ (some m, record q { queue = ms }) ]

-- The queue is first in, first out: a pop is not changed by a later push, except on an empty queue,
-- where it finds the message pushed.
pub pop_front-push_back :
    (m : Message) (q : QueueInner)
    → pop_front (push_back m q) ≡ elim (pop_front q).0 [
      | none ↦ (some m, record q { queue = [] })
      | some first ↦ (some first, push_back m (pop_front q).1)
    ]
unfolding pop_front push_back
pop_front-push_back m q = fifo q.queue
  where
    fifo :
        (ms : List Message)
        → pop_front (push_back m (record q { queue = ms }))
          ≡ elim (pop_front (record q { queue = ms })).0 [
            | none ↦ (some m, record q { queue = [] })
            | some first ↦ (some first, push_back m (pop_front (record q { queue = ms })).1)
          ]
    fifo [] = refl
    fifo (x ∷ ms) = refl

-- `WebSocketLocalQueue::is_closed`, where `strong_count` handles on the queue are left.
unfoldable pub is_closed : ℕ → Bool
is_closed strong_count = strong_count == 1

-- `register`
unfoldable pub register : ℕ → QueueInner → QueueInner
register w q = record q { waker = some w }

-- `wake`
unfoldable pub wake : QueueInner → QueueInner
wake q = elim q.waker [ none ↦ q | some w ↦ record q { waker = none; woken = w ∷ q.woken } ]

-- `text`, `binary`, `ping`, `pong` and `close` of `WebSocketLocalQueue`.
unfoldable pub push : Message → QueueInner → QueueInner
unfolding push_back wake
push m q = wake (push_back m q)

-- `WebSocketStream::drop`, on the queue that it shares with the encode stream.
unfoldable pub drop_stream : QueueInner → QueueInner
unfolding wake
drop_stream queue = wake queue

pub record WsConfig (C : Type 0) : Type 0 where
  pub codec : Option C
  pub protocols : Option (List Bytes)
  pub heartbeat : Option Duration
  pub server_send_heartbeat : Bool
  pub timeout : Duration

-- `DEFAULT_CONFIG`
pub default_config : {C : Type 0} → WsConfig C
default_config = record {
  codec = none;
  protocols = none;
  heartbeat = some (from_secs 5);
  server_send_heartbeat = false;
  timeout = from_secs 10;
}

-- The setters of `WsConfig`.
module _ {C : Type 0} where
  pub set_codec : C → WsConfig C → WsConfig C
  set_codec codec c = record c { codec = some codec }

  pub set_protocols : List Bytes → WsConfig C → WsConfig C
  set_protocols protocols c = record c { protocols = some protocols }

  pub set_heartbeat : Duration → WsConfig C → WsConfig C
  set_heartbeat dur c = record c { heartbeat = some dur }

  pub set_timeout : Duration → WsConfig C → WsConfig C
  set_timeout dur c = record c { timeout = dur }

  pub disable_heartbeat : WsConfig C → WsConfig C
  disable_heartbeat c = record c { heartbeat = none }

  pub enable_server_send_heartbeat : WsConfig C → WsConfig C
  enable_server_send_heartbeat c = record c { server_send_heartbeat = true }

  -- `WsConfig::from_req`: the configuration in the app data, that in its `Data`, or the default.
  pub from_req : Option (WsConfig C) → Option (WsConfig C) → WsConfig C
  unfolding default_config
  from_req (some c) shared = c
  from_req none (some c) = c
  from_req none none = default_config
