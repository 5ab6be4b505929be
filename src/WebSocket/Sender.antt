-- ===== src/WebSocket/Sender.antt =====
-- `WebSocketSender` and `TryNext` of actix_send_websocket/src/lib.rs.
use actix_send.Prelude.{if◌then◌else◌, arith, ℕ, ◌≡◌, refl, Bool, true, false, Option, none, some}
use actix_send.FutureHandle.{Poll, ready, pending}
use actix_send.WebSocket.{Bytes, Message}
use actix_send.WebSocket.Decode.{ProtocolError, Item, message, error}

-- `Result<(), Error>`, where the error is an internal server error.
pub data Sent : Type 0 where
  done internal_server_error : Sent

-- What `TryNext` is ready with: `Ok` of a message or of the end, or `Err`.
pub data Tried : Type 0 where
  yielded : Option Message → Tried
  failed : ProtocolError → Tried

-- `accepts m`: the unbounded channel takes `m`.
module _ (accepts : Message → Bool) where
  unfoldable pub sent : Bool → Sent
  sent true = done
  sent false = internal_server_error

  unfoldable pub send : Message → Sent
  unfolding sent
  send m = sent (accepts m)

  -- `try_send`: the error gives the message back, and `none` is `Ok`.
  unfoldable pub try_send : Message → Option Message
  try_send m = if accepts m then none else some m

  -- `try_send` fails exactly where `send` does.
  pub send-try_send :
      (m : Message) → send m ≡ sent (elim (try_send m) [ none ↦ true | some _ ↦ false ])
  unfolding try_send send sent
  send-try_send m = ground arith

  pub send_text : Bytes → Sent
  send_text data_ = send (Message.text data_)

  pub send_binary : Bytes → Sent
  send_binary data_ = send (Message.binary data_)

  pub send_ping : Bytes → Sent
  send_ping data_ = send (Message.ping data_)

  pub send_pong : Bytes → Sent
  send_pong data_ = send (Message.pong data_)

  pub send_close : Option ℕ → Sent
  send_close reason = send (Message.close reason)

-- `TryNext::poll`, on what the stream's poll yields.
pub poll_try_next : Poll (Option Item) → Poll Tried
poll_try_next (ready (some (message m))) = ready (yielded (some m))
poll_try_next (ready none) = ready (yielded none)
poll_try_next (ready (some (error e))) = ready (failed e)
poll_try_next pending = pending

-- What the stream yielded, read off from what `TryNext` answers.
pub untried : Poll Tried → Poll (Option Item)
untried (ready (yielded (some m))) = ready (some (message m))
untried (ready (yielded none)) = ready none
untried (ready (failed e)) = ready (some (error e))
untried pending = pending

-- No answer of the stream is lost or mistaken for another one by `TryNext`.
pub untried-poll_try_next : (p : Poll (Option Item)) → untried (poll_try_next p) ≡ p
unfolding untried poll_try_next
untried-poll_try_next (ready (some (message m))) = refl
untried-poll_try_next (ready none) = refl
untried-poll_try_next (ready (some (error e))) = refl
untried-poll_try_next pending = refl
