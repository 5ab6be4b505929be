-- ===== src/Chat/Session.antt =====
-- actix_send_websocket/examples/websocket-chat2/src/main.rs: a route's session and what it makes of
-- each message of its stream. The loop names the received message `res` and matches on `msg`; here it
-- matches on the received message.
pub mod Talk
use actix_send.Prelude.{
  ℕ, ◌+◌, ◌/◌, ◌%◌, Bool, true, false, ◌||◌, List, [], ◌∷◌, ◌++◌, Option, none, some, ltb, ◌==◌,
  if◌then◌else◌,
}
use actix_send.Text.{Text, codes, equal, is_prefix, trim}
use actix_send.WebSocket.{Message, QueueInner, push}
use actix_send.Chat.Server.{
  ChatServer, main_room, list_rooms, send_message, disconnect, connect, join,
}

-- What the stream yields as `Ok`: `Message::Nop` or one of the other variants.
pub data Received : Type 0 where
  nop : Received
  framed : Message → Received

-- `WsChatSession`, with the queue of its route's stream and whether the route still loops.
pub record WsChatSession : Type 0 where
  pub id : ℕ
  pub room : Text
  pub name : Option Text
  pub stream : QueueInner
  pub looping : Bool

-- `splitn(2, ' ')`: the part before the first space, and the part behind it.
unfoldable pub splitn : Text → Text × Option Text
splitn [] = ([], none)
splitn (c ∷ m) = let rest = splitn m in if c == 32 then ([], some m) else (c ∷ rest.0, rest.1)

-- `{:?}` of the standard library, over ASCII.
hex_digit : ℕ → ℕ
hex_digit d = if ltb d 10 then 48 + d else 87 + d

escape_unicode : ℕ → Text
unfolding hex_digit
escape_unicode c =
    codes "\\u{"
    ++ ((if ltb c 16 then [] else hex_digit (c / 16) ∷ []) ++ hex_digit (c % 16) ∷ codes "}")

escape_debug : ℕ → Text
unfolding escape_unicode
escape_debug c =
    if c == 34 || c == 92
    then 92 ∷ c ∷ []
    else (if c == 0
        then codes "\\0"
        else (if c == 9
            then codes "\\t"
            else (if c == 10
                then codes "\\n"
                else (if c == 13
                    then codes "\\r"
                    else (if ltb c 32 || c == 127 then escape_unicode c else c ∷ [])))))

escape_all : Text → Text
unfolding escape_debug
escape_all [] = []
escape_all (c ∷ m) = escape_debug c ++ escape_all m

debug : Text → Text
unfolding escape_all
debug m = 34 ∷ (escape_all m ++ 34 ∷ [])

unfoldable pub send_texts : List Text → QueueInner → QueueInner
unfolding push
send_texts [] q = q
send_texts (t ∷ texts) q = send_texts texts (push (Message.text t) q)

-- `stream.text(m)`
unfoldable pub reply : Text → WsChatSession → WsChatSession
unfolding push
reply m r = record r { stream = push (Message.text m) r.stream }

-- `stream.close(reason)` and the return.
unfoldable pub close : Option ℕ → WsChatSession → WsChatSession
unfolding push
close reason r = record r { stream = push (Message.close reason) r.stream; looping = false }

unfoldable pub named : Option Text → Text → Text
named none m = m
named (some name) m = name ++ (codes ": " ++ m)

module _ (accepts : ℕ → ℕ → Message → Bool) where
  -- The session that `WsChatSession::new` makes on the stream, and the server afterwards.
  unfoldable pub new_session : ℕ → ℕ → QueueInner → ChatServer → WsChatSession × Option ChatServer
  unfolding connect
  new_session id tx stream s = (
    record { id = id; room = main_room; name = none; stream = stream; looping = true },
    connect accepts id tx s,
  )

  -- `WsChatSession::drop`
  unfoldable pub drop_session : WsChatSession → ChatServer → Option ChatServer
  unfolding disconnect
  drop_session r s = disconnect accepts r.id s

  -- `/join`, by whether a name follows; the name itself is not read.
  unfoldable pub join_command :
      Option Text → WsChatSession → ChatServer → WsChatSession × Option ChatServer
  unfolding reply join
  join_command (some room) r s = (reply (codes "joined") r, join accepts r.id r.room s)
  join_command none r s = (reply (codes "!!! room name is required") r, some s)

  unfoldable pub name_command : Option Text → WsChatSession → WsChatSession
  unfolding reply
  name_command (some name) r = reply (codes "new name is " ++ name) (record r { name = some name })
  name_command none r = reply (codes "!!! name is required") r

  -- A text that begins with `/`.
  unfoldable pub command : Text → WsChatSession → ChatServer → WsChatSession × Option ChatServer
  unfolding splitn debug send_texts reply list_rooms join_command name_command
  command m r s =
      let v = splitn m in
      if equal v.0 (codes "/list")
      then (record r { stream = send_texts (list_rooms s) r.stream }, some s)
      else (if equal v.0 (codes "/join")
          then join_command v.1 r s
          else (if equal v.0 (codes "/name")
              then (name_command v.1 r, some s)
              else (reply (codes "!!! unknown command: " ++ debug m) r, some s)))

  unfoldable pub on_text : Text → WsChatSession → ChatServer → WsChatSession × Option ChatServer
  unfolding command named send_message
  on_text m r s =
      if is_prefix (codes "/") m
      then command m r s
      else (r, send_message accepts r.room (named r.name m) r.id s)

  -- One turn of the loop of `chat_route`.
  unfoldable pub on_message :
      Received → WsChatSession → ChatServer → WsChatSession × Option ChatServer
  unfolding on_text close
  on_message (framed (Message.ping msg)) r s =
      (record r { stream = push (Message.pong msg) r.stream }, some s)
  on_message (framed (Message.text text)) r s = on_text (trim text) r s
  on_message (framed (Message.binary data_)) r s = (r, some s)
  on_message (framed (Message.close reason)) r s = (close reason r, some s)
  on_message (framed (Message.continuation item)) r s = (close none r, some s)
  on_message (framed (Message.pong data_)) r s = (r, some s)
  on_message nop r s = (r, some s)
