-- ===== src/WebSocket/Encode.antt =====
-- `EncodeStream::poll_next` of actix_send_websocket/src/lib.rs.
pub mod Order
pub mod Drop
use actix_send.Prelude.{
  ℕ, ◌≡◌, Bool, true, false, List, [], ◌∷◌, Option, none, some, ◌||◌, if◌then◌else◌,
}
use actix_send.FutureHandle.{Poll, ready, pending}
use actix_send.WebSocket.{Bytes, Message, close, QueueInner, register}

-- The channel's receiver: the messages that it still yields, whether `close` was called on it, and
-- whether every sender is gone.
pub record Receiver : Type 0 where
  pub messages : List Message
  pub closed : Bool
  pub disconnected : Bool

-- What the stream uses of other libraries. `encode` appends a message to the buffer, or fails; the
-- codec keeps a state. `ends` says whether a receiver without messages answers `None` or is pending,
-- and one that was closed answers `None`.
pub record Outside : Type 1 where
  pub State : Type 0
  pub encode : State → Message → Bytes → Option (State × Bytes)
  pub ends : Receiver → Bool
  pub ends_closed : (r : Receiver) → r.closed ≡ true → ends r ≡ true

unfoldable pub is_close : Message → Bool
is_close (close _) = true
is_close _ = false

unfoldable pub is_empty : Bytes → Bool
is_empty [] = true
is_empty (b ∷ bs) = false

module _ (enc : Outside) where
  open enc use {State, encode, ends}

  pub record EncodeStream : Type 0 where
    pub queue : QueueInner
    pub rx : Receiver
    pub codec : State
    pub write_buf : Bytes

  -- What a poll yields; `failed` is an item that carries the codec's error.
  pub data Yield : Type 0 where
    bytes : Bytes → Yield
    failed : Yield

  -- One message, from either side: a close message closes the receiver, and then it is encoded.
  -- `false` if the codec fails.
  encode_one : Message → EncodeStream → Bool × EncodeStream
  unfolding is_close
  encode_one m e =
      let closing = record e { rx = record (e.rx) { closed = e.rx.closed || is_close m } } in
      elim (encode e.codec m e.write_buf) [
        | none ↦ (false, closing)
        | some (codec, buf) ↦ (true, record closing { codec = codec; write_buf = buf })
      ]

  -- `while let Some(msg) = queue.pop_front()`
  drain_queue : List Message → EncodeStream → Bool × EncodeStream
  unfolding encode_one
  drain_queue [] e = (true, record e { queue = record (e.queue) { queue = [] } })
  drain_queue (m ∷ ms) e =
      let popped = record e { queue = record (e.queue) { queue = ms } } in
      let (fine, e') = encode_one m popped in
      let rest = drain_queue ms e' in if fine then rest else (false, e')

  -- The loop over `poll_recv`, while the receiver yields messages.
  drain_rx : List Message → EncodeStream → Bool × EncodeStream
  unfolding encode_one
  drain_rx [] e = (true, record e { rx = record (e.rx) { messages = [] } })
  drain_rx (m ∷ ms) e =
      let popped = record e { rx = record (e.rx) { messages = ms } } in
      let (fine, e') = encode_one m popped in
      let rest = drain_rx ms e' in if fine then rest else (false, e')

  -- The end of the loop: the receiver has nothing left. The flag says whether the stream wakes itself.
  finish_poll : EncodeStream → Poll (Option Yield) × Bool × EncodeStream
  unfolding is_empty
  finish_poll e =
      let ended = ends e.rx in
      if is_empty e.write_buf
      then (if ended then ready none else pending, false, e)
      else (ready (some (bytes e.write_buf)), ended, record e { write_buf = [] })

  -- `is_closed`: the decode stream is gone. Then the receiver is closed, and else the queue gets the
  -- waker.
  note_decode : Bool → ℕ → EncodeStream → EncodeStream
  unfolding register
  note_decode decode_gone w e =
      if decode_gone
      then record e { rx = record (e.rx) { closed = true } }
      else record e { queue = register w e.queue }

  receive : Bool × EncodeStream → Poll (Option Yield) × Bool × EncodeStream
  unfolding finish_poll
  receive (false, e) = (ready (some failed), false, e)
  receive (true, e) = finish_poll e

  drained : Bool → ℕ → Bool × EncodeStream → Poll (Option Yield) × Bool × EncodeStream
  unfolding note_decode drain_rx receive
  drained decode_gone w (false, e) = (ready (some failed), false, e)
  drained decode_gone w (true, e) =
      let noted = note_decode decode_gone w e in receive (drain_rx noted.rx.messages noted)

  -- `poll_next`, by waker `w`.
  pub poll_next : Bool → ℕ → EncodeStream → Poll (Option Yield) × Bool × EncodeStream
  unfolding drain_queue drained
  poll_next decode_gone w e = drained decode_gone w (drain_queue e.queue.queue e)
