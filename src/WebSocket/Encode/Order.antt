-- ===== src/WebSocket/Encode/Order.antt =====
-- What a poll of the encode stream sends to the client, in which order, and when the stream ends.
use actix_send.Prelude.{
  ℕ, ◌≡◌, ◌⊎◌, refl, ap, ◌∙◌, Bool, true, false, List, [], ◌∷◌, ◌++◌, Option, none, some, ◌||◌,
  if◌then◌else◌, Option-cases, Bool-cases, inl, inr, arith,
}
use actix_send.FutureHandle.{ready, pending}
use actix_send.WebSocket.{Bytes, Message}
use actix_send.WebSocket.Encode.{
  Outside, Receiver, is_close, is_empty, EncodeStream, bytes, encode_one, drain_queue, drain_rx,
  finish_poll, note_decode, drained, poll_next,
}

abbrev pub any_close : List Message → Bool
any_close [] = false
any_close (m ∷ ms) = is_close m || any_close ms

module _ (enc : Outside) where
  open enc use {State, encode, ends, ends_closed}

  -- The messages encoded one behind the other.
  unfoldable pub encode_all : State → List Message → Bytes → Option (State × Bytes)
  encode_all c [] buf = some (c, buf)
  encode_all c (m ∷ ms) buf = elim (encode c m buf) [
    | none ↦ none
    | some (c', buf') ↦ encode_all c' ms buf'
  ]

  -- The stream after all of `ms` has been encoded.
  abbrev encoded : List Message → State → Bytes → EncodeStream enc → EncodeStream enc
  encoded ms c buf e = record e {
    codec = c;
    write_buf = buf;
    rx = record (e.rx) { closed = e.rx.closed || any_close ms };
  }

  or_assoc : (a b c : Bool) → ((a || b) || c) ≡ (a || (b || c))
  or_assoc a b c = ground arith

  any_close-append :
      (c : Bool) (ms ns : List Message)
      → ((c || any_close ms) || any_close ns) ≡ (c || any_close (ms ++ ns))
  any_close-append c [] ns = ground arith
  any_close-append c (m ∷ ms) ns = ground (arith, any_close-append c ms ns)

  drain_queue_lem :
      (ms : List Message) (e : EncodeStream enc) (c : State) (buf : Bytes)
      → encode_all e.codec ms e.write_buf ≡ some (c, buf)
      → drain_queue enc ms e
        ≡ (true, record (encoded ms c buf e) { queue = record (e.queue) { queue = [] } })
  unfolding drain_queue encode_all
  drain_queue_lem [] e c buf h = ground arith
  drain_queue_lem (m ∷ ms) e c buf h = elim (Option-cases (encode e.codec m e.write_buf)) [
    | inl fails ↦ absurd (ground arith)
    | inr (x, fits) ↦
        rw (← or_assoc e.rx.closed (is_close m) (any_close ms), fits, encode_one)
          (drain_queue_lem ms
            (record e {
              queue = record (e.queue) { queue = ms };
              rx = record (e.rx) { closed = e.rx.closed || is_close m };
              codec = x.0;
              write_buf = x.1;
            })
            c buf (ground arith))
  ]

  drain_rx_lem :
      (ms : List Message) (e : EncodeStream enc) (c : State) (buf : Bytes)
      → encode_all e.codec ms e.write_buf ≡ some (c, buf)
      → drain_rx enc ms e ≡ (
        true,
        record (encoded ms c buf e) {
          rx = record (e.rx) { messages = []; closed = e.rx.closed || any_close ms };
        },
      )
  unfolding drain_rx encode_all
  drain_rx_lem [] e c buf h = ground arith
  drain_rx_lem (m ∷ ms) e c buf h = elim (Option-cases (encode e.codec m e.write_buf)) [
    | inl fails ↦ absurd (ground arith)
    | inr (x, fits) ↦
        rw (← or_assoc e.rx.closed (is_close m) (any_close ms), fits, encode_one)
          (drain_rx_lem ms
            (record e {
              rx = record (e.rx) { messages = ms; closed = e.rx.closed || is_close m };
              codec = x.0;
              write_buf = x.1;
            })
            c buf (ground arith))
  ]

  encode_all-append :
      (ms ns : List Message) (c : State) (buf : Bytes)
      → encode_all c (ms ++ ns) buf
        ≡ elim (encode_all c ms buf) [ none ↦ none | some (d, b) ↦ encode_all d ns b ]
  unfolding encode_all
  encode_all-append [] ns c buf = refl
  encode_all-append (m ∷ ms) ns c buf = elim (Option-cases (encode c m buf)) [
    | inl fails ↦ rw fails
    | inr (x, fits) ↦ rw fits (encode_all-append ms ns x.0 x.1)
  ]

  finish_lem :
      (e : EncodeStream enc) (r : Receiver)
      → e.rx ≡ r
      → let (polled, wakes, t) = finish_poll enc e in
        (t.codec ≡ e.codec)
        × (t.queue.queue ≡ e.queue.queue)
        × (t.rx ≡ r)
        × (polled ≡ (
            if is_empty e.write_buf
            then if ends r then ready none else pending
            else ready (some (bytes e.write_buf))))
        × (wakes ≡ (if is_empty e.write_buf then false else ends r))
  unfolding finish_poll
  finish_lem e r same = ground arith

  -- The poll behind the local queue, from the stream in which that queue is encoded.
  abbrev emptied : EncodeStream enc → State → Bytes → EncodeStream enc
  emptied e d b = record (encoded e.queue.queue d b e) { queue = record (e.queue) { queue = [] } }

  noted_lem :
      (decode_gone : Bool) (w : ℕ) (e : EncodeStream enc) (d : State) (b : Bytes) (c : State)
      (buf : Bytes)
      → encode_all d e.rx.messages b ≡ some (c, buf)
      → let rx = record (e.rx) {
        messages = [];
        closed = (e.rx.closed || decode_gone) || any_close (e.queue.queue ++ e.rx.messages);
      } in
        let (polled, wakes, t) = drained enc decode_gone w (true, emptied e d b) in
        (t.codec ≡ c)
        × (t.queue.queue ≡ [])
        × (t.rx ≡ rx)
        × (polled ≡ (
            if is_empty buf
            then if ends rx then ready none else pending
            else ready (some (bytes buf))))
        × (wakes ≡ (if is_empty buf then false else ends rx))
  unfolding drained
  noted_lem true w e d b c buf h =
      rw (drain_rx_lem e.rx.messages (note_decode enc true w (emptied e d b)) c buf h)
        (finish_lem _ _ (ap (λ f. record (e.rx) { messages = []; closed = f }) (ground arith)))
  noted_lem false w e d b c buf h =
      rw (drain_rx_lem e.rx.messages (note_decode enc false w (emptied e d b)) c buf h) (
        finish_lem _ _ (
          ap (λ f. record (e.rx) { messages = []; closed = f })
            (any_close-append e.rx.closed e.queue.queue e.rx.messages ∙ ground arith)))

  -- If the codec takes all of the queued messages and then all of the channel's, one poll encodes them
  -- in that order behind what the buffer held and leaves both queues empty. It yields the bytes if there
  -- are any, and then wakes itself exactly if the channel has ended. With no bytes it ends if the
  -- channel has, and else it is pending.
  pub poll_next_lem :
      (decode_gone : Bool) (w : ℕ) (e : EncodeStream enc) (c : State) (buf : Bytes)
      → encode_all e.codec (e.queue.queue ++ e.rx.messages) e.write_buf ≡ some (c, buf)
      → let rx = record (e.rx) {
        messages = [];
        closed = (e.rx.closed || decode_gone) || any_close (e.queue.queue ++ e.rx.messages);
      } in
        let (polled, wakes, t) = poll_next enc decode_gone w e in
        (t.codec ≡ c)
        × (t.queue.queue ≡ [])
        × (t.rx ≡ rx)
        × (polled ≡ (
            if is_empty buf
            then if ends rx then ready none else pending
            else ready (some (bytes buf))))
        × (wakes ≡ (if is_empty buf then false else ends rx))
  unfolding poll_next
  poll_next_lem decode_gone w e c buf h =
      elim (Option-cases (encode_all e.codec e.queue.queue e.write_buf)) [
        | inl fails ↦
            absurd
              (ground (arith, encode_all-append e.queue.queue e.rx.messages e.codec e.write_buf))
        | inr (x, fits) ↦ rw (drain_queue_lem e.queue.queue e x.0 x.1 fits) (
            noted_lem decode_gone w e x.0 x.1 c buf
              (ground (arith, encode_all-append e.queue.queue e.rx.messages e.codec e.write_buf)))
      ]

  -- If the codec takes all of the queued and of the channel's messages: once a close message is queued
  -- on either side, or the decode stream is gone, a poll is never pending. It yields bytes and wakes
  -- itself, or it ends the stream.
  pub close_ends :
      (decode_gone : Bool) (w : ℕ) (e : EncodeStream enc) (c : State) (buf : Bytes)
      → encode_all e.codec (e.queue.queue ++ e.rx.messages) e.write_buf ≡ some (c, buf)
      → (decode_gone || any_close (e.queue.queue ++ e.rx.messages)) ≡ true
      → let (polled, wakes, t) = poll_next enc decode_gone w e in
        ((polled ≡ ready none) × (is_empty buf ≡ true))
        ⊎ ((polled ≡ ready (some (bytes buf))) × (wakes ≡ true))
  close_ends decode_gone w e c buf h ended =
      let (_, _, _, polled, wakes) = poll_next_lem decode_gone w e c buf h in
      let over =
        ends_closed
          (record (e.rx) {
            messages = [];
            closed = (e.rx.closed || decode_gone) || any_close (e.queue.queue ++ e.rx.messages);
          })
          (rw (or_assoc e.rx.closed decode_gone (any_close (e.queue.queue ++ e.rx.messages)), ended)
            (ground arith)) in
      elim (Bool-cases (is_empty buf)) [
        | inl e0 ↦ inl (ground (arith, polled, over), e0)
        | inr e1 ↦ inr (ground (arith, polled, over), ground (arith, wakes, over))
      ]
