-- ===== src/WebSocket/Encode/Drop.antt =====
-- An encode stream whose decode stream is dropped.
use actix_send.Prelude.{ℕ, ◌≡◌, refl, ap, ◌∙◌, Bool, true, false, [], ◌∷◌, none, if◌then◌else◌}
use actix_send.FutureHandle.{ready, pending}
use actix_send.WebSocket.{QueueInner, wake, register, drop_stream}
use actix_send.WebSocket.Encode.{
  Outside, Receiver, EncodeStream, poll_next, drain_queue, drain_rx, finish_poll, note_decode,
  receive, drained, is_empty,
}

module _ (enc : Outside) where
  open enc use {ends, ends_closed}

  -- A poll with nothing to send.
  poll_next_empty :
      (decode_gone : Bool) (w : ℕ) (e : EncodeStream enc)
      → e.queue.queue ≡ []
      → e.rx.messages ≡ []
      → e.write_buf ≡ []
      → let (polled, _, t) = poll_next enc decode_gone w e in
        let rx = record (e.rx) { closed = if decode_gone then true else e.rx.closed } in
        (polled ≡ (if ends rx then ready none else pending))
        × (t.queue ≡ (if decode_gone then e.queue else register w e.queue))
        × (t.rx ≡ rx)
        × (t.write_buf ≡ [])
  unfolding poll_next drained drain_queue note_decode receive drain_rx finish_poll register is_empty
  poll_next_empty true w e no_local no_message no_byte =
      rw (no_local, no_message, no_byte) (refl, refl, refl, refl)
  poll_next_empty false w e no_local no_message no_byte =
      rw (no_local, no_message, no_byte) (refl, refl, refl, refl)

  queue-drop_stream :
      (w : ℕ) (e : EncodeStream enc) (q : QueueInner)
      → q ≡ register w e.queue
      → e.queue.queue ≡ []
      → (drop_stream q).queue ≡ []
  unfolding drop_stream wake register
  queue-drop_stream w e q h no_local = rw h no_local

  woken-drop_stream :
      (w : ℕ) (e : EncodeStream enc) (q : QueueInner)
      → q ≡ register w e.queue
      → (drop_stream q).woken ≡ w ∷ e.queue.woken
  unfolding drop_stream wake register
  woken-drop_stream w e q h = rw h

  -- A poll of an encode stream with nothing to send, whose channel has not ended, is pending. Dropping
  -- the `WebSocketStream` then wakes the task that polled, and its next poll ends the stream.
  pub drop_stream-poll_next :
      (w v : ℕ) (e : EncodeStream enc)
      → e.queue.queue ≡ []
      → e.rx.messages ≡ []
      → e.write_buf ≡ []
      → ends e.rx ≡ false
      → let (polled, _, t) = poll_next enc false w e in
        let queue = drop_stream t.queue in
        (polled ≡ pending)
        × (queue.woken ≡ w ∷ e.queue.woken)
        × ((poll_next enc true v (record t { queue = queue })).0 ≡ ready none)
  drop_stream-poll_next w v e no_local no_message no_byte open_ =
      let (polled, queue, rx, buf) = poll_next_empty false w e no_local no_message no_byte in
      let t = (poll_next enc false w e).2 in
      let dropped = record t { queue = drop_stream t.queue } in
      let (ends_, _, _, _) =
        poll_next_empty true v dropped (queue-drop_stream w e t.queue queue no_local)
          (ap (λ (r : Receiver). r.messages) rx ∙ no_message) buf in
      (
        polled ∙ (rw open_ refl),
        woken-drop_stream w e t.queue queue,
        ends_ ∙ (rw (ends_closed (record (t.rx) { closed = true }) refl) refl),
      )
