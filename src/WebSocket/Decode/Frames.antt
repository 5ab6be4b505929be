-- ===== src/WebSocket/Decode/Frames.antt =====
-- When the decode stream gives up a client, and what keeps it alive.
use actix_send.Prelude.{
  ℕ, ◌+◌, ◌≤◌, ◌≡◌, refl, Bool, true, false, List, [], ◌∷◌, Option, none, some, ltb, if◌then◌else◌,
  arith,
}
use actix_send.FutureHandle.{Poll, ready, pending}
use actix_send.WebSocket.{Bytes, Message, push}
use actix_send.WebSocket.HeartBeat.{HeartBeat, set}
use actix_send.WebSocket.Decode.{
  Frame, Item, message, error, Chunk, chunk, failure, Outside, DecodeStream, item_of, decode_buf,
  poll_loop, is_empty, ping_bytes, normal_close, io, frame, apply_decoded,
}

module _ (out : Outside) where
  open out use {State, decode, is_utf8}

  -- A poll that finds no byte to read and its timer run out: before the deadline it goes on waiting,
  -- with the timer set one interval further and a ping to the client if the server sends heartbeats.
  -- Then the timer wakes the task only if it was not ready again at once. From the deadline on it
  -- queues a close message and ends the stream.
  pub poll_loop-beat :
      (now timer : ℕ) (d : DecodeStream out)
      → d.read_buf ≡ []
      → d.timer ≡ some timer
      → timer ≤ now
      → let (polled, t, _) = poll_loop out now (pending ∷ []) d in
        let alive = ltb timer d.hb.deadline in
        (polled ≡ (if alive then pending else ready none))
        × (t.timer ≡ some (if alive then timer + d.hb.interval else timer))
        × (t.queue ≡ (
            if alive
            then if d.hb.server_send_heartbeat
              then push (Message.ping ping_bytes) d.queue
              else d.queue
            else push (Message.close (some normal_close)) d.queue))
        × (t.wakes ≡ (if alive then ltb now (timer + d.hb.interval) else false))
        × (t.hb ≡ d.hb)
        × (t.read_buf ≡ [])
  unfolding poll_loop set
  poll_loop-beat now timer d empty runs out_ = ground arith

  -- What a codec that reads frame `f` makes of a poll: the frame's own message, with a text that is no
  -- UTF-8 as an error, and the rest of the bytes kept.
  abbrev pub message_of : Frame → Item
  message_of (Frame.text b) = if is_utf8 b then message (Message.text b) else error io
  message_of (Frame.binary b) = message (Message.binary b)
  message_of (Frame.ping b) = message (Message.ping b)
  message_of (Frame.pong b) = message (Message.pong b)
  message_of (Frame.close r) = message (Message.close r)
  message_of (Frame.continuation i) = message (Message.continuation i)

  abbrev pub shows_life : Frame → Bool
  shows_life (Frame.ping b) = true
  shows_life (Frame.pong b) = true
  shows_life _ = false

  item_of_lem : (now : ℕ) (f : Frame) (hb : HeartBeat) → (item_of out now f hb).0 ≡ message_of f
  unfolding item_of
  item_of_lem now (Frame.text b) hb = refl
  item_of_lem now (Frame.binary b) hb = refl
  item_of_lem now (Frame.ping b) hb = refl
  item_of_lem now (Frame.pong b) hb = refl
  item_of_lem now (Frame.close r) hb = refl
  item_of_lem now (Frame.continuation i) hb = refl

  deadline-item_of :
      (now : ℕ) (f : Frame) (hb : HeartBeat)
      → (item_of out now f hb).1.deadline ≡ (if shows_life f then now + hb.timeout else hb.deadline)
  unfolding item_of
  deadline-item_of now (Frame.text b) hb = refl
  deadline-item_of now (Frame.binary b) hb = refl
  deadline-item_of now (Frame.ping b) hb = refl
  deadline-item_of now (Frame.pong b) hb = refl
  deadline-item_of now (Frame.close r) hb = refl
  deadline-item_of now (Frame.continuation i) hb = refl

  -- What a poll makes of the bytes read when they hold a whole frame.
  decode_buf-frame :
      (now : ℕ) (d : DecodeStream out) (b : ℕ) (bs rest : Bytes) (c : State) (f : Frame)
      → d.read_buf ≡ b ∷ bs
      → decode d.codec (b ∷ bs) ≡ frame c rest f
      → decode_buf out now d ≡ (
        some (item_of out now f d.hb).0,
        record d { codec = c; read_buf = rest; hb = (item_of out now f d.hb).1 },
      )
  unfolding decode_buf apply_decoded is_empty
  decode_buf-frame now d b bs rest c f read reads = rw (read, reads)

  -- A poll that decodes an item yields it and leaves the inner stream alone.
  poll_loop-decode_buf :
      (now : ℕ) (d d' : DecodeStream out) (i : Item) (source : List (Poll (Option Chunk)))
      → decode_buf out now d ≡ (some i, d')
      → poll_loop out now source d ≡ (ready (some i), d', source)
  unfolding poll_loop
  poll_loop-decode_buf now d d' i [] decodes = rw (poll_loop, decodes, decodes)
  poll_loop-decode_buf now d d' i (pending ∷ source) decodes = rw (poll_loop, decodes, decodes)
  poll_loop-decode_buf now d d' i (ready none ∷ source) decodes = rw (poll_loop, decodes, decodes)
  poll_loop-decode_buf now d d' i (ready (some failure) ∷ source) decodes =
      rw (poll_loop, decodes, decodes)
  poll_loop-decode_buf now d d' i (ready (some (chunk b)) ∷ source) decodes =
      rw (poll_loop, decodes, decodes)

  -- Bytes that hold a whole frame give its message at the next poll, before the inner stream is asked
  -- again. A ping or a pong moves the deadline to one timeout from now; no other frame moves it.
  pub poll_loop-frame :
      (now : ℕ) (d : DecodeStream out) (b : ℕ) (bs rest : Bytes) (c : State) (f : Frame)
      (source : List (Poll (Option Chunk)))
      → d.read_buf ≡ b ∷ bs
      → decode d.codec (b ∷ bs) ≡ frame c rest f
      → let (polled, t, left) = poll_loop out now source d in
        (polled ≡ ready (some (message_of f)))
        × (t.read_buf ≡ rest)
        × (left ≡ source)
        × (t.hb.deadline ≡ (if shows_life f then now + d.hb.timeout else d.hb.deadline))
  poll_loop-frame now d b bs rest c f source read reads =
      let yields =
        poll_loop-decode_buf now d _ _ source (decode_buf-frame now d b bs rest c f read reads) in
      rw yields (rw (item_of_lem now f d.hb), refl, refl, deadline-item_of now f d.hb)
