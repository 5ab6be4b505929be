-- ===== src/Chat/Session/Talk.antt =====
-- What a client's text does in its room, alone and after the client has taken a name.
use actix_send.Prelude.{ℕ, ◌≡◌, refl, Bool, true, false, ◌++◌, some, ◌==◌}
use actix_send.Text.{Text, codes, equal, is_prefix, trim}
use actix_send.WebSocket.{Message}
use actix_send.Chat.Server.{ChatServer, find_session}
use actix_send.Chat.Server.Tables.{is_member}
use actix_send.Chat.Server.Delivery.{IsServed, send_message-received}
use actix_send.Chat.Server.Ending.{Ends}
use actix_send.Chat.Session.{
  framed, WsChatSession, splitn, named, on_text, on_message, command, name_command, reply,
}

module _ (accepts : ℕ → ℕ → Message → Bool) where
  -- A text that does not begin with `/` when trimmed: the turn ends, and each other member of the
  -- route's room that has a session has received it, with the client's name before it if it has one,
  -- or has no session any more since a send to it was refused.
  pub on_message-received :
      (text : Text) (r : WsChatSession) (s : ChatServer) (id : ℕ) {tx : ℕ}
      → is_prefix (codes "/") (trim text) ≡ false
      → is_member id r.room s.rooms ≡ true
      → (id == r.id) ≡ false
      → find_session id s.sessions ≡ some tx
      → Ends
          (IsServed (named r.name (trim text)) id tx)
          (on_message accepts (framed (Message.text text)) r s).1
  unfolding on_message on_text
  on_message-received text r s id plain m ne e =
      rw plain (send_message-received accepts r.room (named r.name (trim text)) r.id id s m ne e)

  on_message-name :
      (text name : Text) (r : WsChatSession) (s : ChatServer)
      → trim text ≡ codes "/name " ++ name
      → on_message accepts (framed (Message.text text)) r s
        ≡ (reply (codes "new name is " ++ name) (record r { name = some name }), some s)
  unfolding on_message on_text is_prefix command splitn equal name_command reply
  on_message-name text name r s e = rw e refl

  -- After a `/name` turn, which leaves the server as it is, a text that does not begin with `/` when
  -- trimmed reaches each other member of the route's room that has a session behind the name, a
  -- colon and a space, or that member has no session any more since a send to it was refused.
  pub on_message-named :
      (asked name text : Text) (r : WsChatSession) (s : ChatServer) (id : ℕ) {tx : ℕ}
      → trim asked ≡ codes "/name " ++ name
      → is_prefix (codes "/") (trim text) ≡ false
      → is_member id r.room s.rooms ≡ true
      → (id == r.id) ≡ false
      → find_session id s.sessions ≡ some tx
      → let first = on_message accepts (framed (Message.text asked)) r s in
        (first.1 ≡ some s)
        × Ends
            (IsServed (name ++ (codes ": " ++ trim text)) id tx)
            (on_message accepts (framed (Message.text text)) first.0 s).1
  unfolding named reply
  on_message-named asked name text r s id e plain m ne f = rw (on_message-name asked name r s e) (
    refl,
    on_message-received text (reply (codes "new name is " ++ name) (record r { name = some name }))
        s id plain m ne f,
  )
