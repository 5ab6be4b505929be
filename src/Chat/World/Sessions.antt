-- ===== src/Chat/World/Sessions.antt =====
-- What a turn leaves of the session of its route (actix_send_websocket/examples/websocket-chat2).
use actix_send.Prelude.{ℕ, ◌≡◌, refl, Bool, true, false, Option, none, some, if◌then◌else◌}
use actix_send.Text.{Text, codes, equal, is_prefix, trim}
use actix_send.WebSocket.{Message}
use actix_send.Chat.Server.{ChatServer}
use actix_send.Chat.Session.{
  Received, nop, framed, WsChatSession, splitn, join_command, name_command, command, on_text,
  on_message, reply, close,
}

module _ (accepts : ℕ → ℕ → Message → Bool) where
  -- A turn changes neither the id nor the room of the session.
  abbrev IsSame : WsChatSession → WsChatSession → Type 0
  IsSame r q = (q.id ≡ r.id) × (q.room ≡ r.room)

  IsSame-if :
      (r : WsChatSession) (b : Bool) (x y : WsChatSession × Option ChatServer)
      → IsSame r x.0
      → IsSame r y.0
      → IsSame r (if b then x else y).0
  IsSame-if r true x y p q = p
  IsSame-if r false x y p q = q

  join_command-IsSame :
      (arg : Option Text) (r : WsChatSession) (s : ChatServer)
      → IsSame r (join_command accepts arg r s).0
  unfolding join_command reply
  join_command-IsSame none r s = (refl, refl)
  join_command-IsSame (some name) r s = (refl, refl)

  name_command-IsSame :
      (arg : Option Text) (r : WsChatSession) → IsSame r (name_command accepts arg r)
  unfolding name_command reply
  name_command-IsSame none r = (refl, refl)
  name_command-IsSame (some name) r = (refl, refl)

  command-IsSame :
      (m : Text) (r : WsChatSession) (s : ChatServer) → IsSame r (command accepts m r s).0
  unfolding command reply
  command-IsSame m r s =
      let v = splitn m in
      IsSame-if r (equal v.0 (codes "/list")) _ _ (refl, refl)
        (IsSame-if r (equal v.0 (codes "/join")) _ _ (join_command-IsSame v.1 r s)
          (IsSame-if r (equal v.0 (codes "/name")) _ _ (name_command-IsSame v.1 r) (refl, refl)))

  on_text-IsSame :
      (m : Text) (r : WsChatSession) (s : ChatServer) → IsSame r (on_text accepts m r s).0
  unfolding on_text
  on_text-IsSame m r s =
      IsSame-if r (is_prefix (codes "/") m) _ _ (command-IsSame m r s) (refl, refl)

  pub on_message-IsSame :
      (m : Received) (r : WsChatSession) (s : ChatServer) → IsSame r (on_message accepts m r s).0
  unfolding on_message close
  on_message-IsSame (framed (Message.ping msg)) r s = (refl, refl)
  on_message-IsSame (framed (Message.text text)) r s = on_text-IsSame (trim text) r s
  on_message-IsSame (framed (Message.binary data_)) r s = (refl, refl)
  on_message-IsSame (framed (Message.close reason)) r s = (refl, refl)
  on_message-IsSame (framed (Message.continuation item)) r s = (refl, refl)
  on_message-IsSame (framed (Message.pong data_)) r s = (refl, refl)
  on_message-IsSame nop r s = (refl, refl)
