-- ===== src/WebSocket/Decode.antt =====
-- `DecodeStream::poll_next` of actix_send_websocket/src/lib.rs.
pub mod Frames
pub mod Silence
use actix_send.Prelude.{
  ℕ, ◌+◌, ◌≡◌, Bool, true, false, List, [], ◌∷◌, ◌++◌, Option, none, some, ltb, if◌then◌else◌,
}
use actix_send.FutureHandle.{Poll, ready, pending}
use actix_send.WebSocket.{Bytes, Message, QueueInner, push}
use actix_send.WebSocket.HeartBeat.{HeartBeat, update, set}

-- `Frame`, which the codec reads.
pub data Frame : Type 0 where
  text binary ping pong : Bytes → Frame
  close : Option ℕ → Frame
  continuation : ℕ → Frame

-- What the stream yields instead of a message: an error of the codec, or `ProtocolError::Io` for a
-- text that is no UTF-8 and for an error of the inner stream.
pub data ProtocolError : Type 0 where
  codec_error io : ProtocolError

pub data Item : Type 0 where
  message : Message → Item
  error : ProtocolError → Item

-- The inner stream's items: a chunk of bytes, or an error.
pub data Chunk : Type 0 where
  chunk : Bytes → Chunk
  failure : Chunk

-- What the codec makes of the bytes read so far.
pub data Decoded (S : Type 0) : Type 0 where
  frame : S → Bytes → Frame → Decoded S
  more : S → Bytes → Decoded S
  broken : S → Bytes → Decoded S

-- What the stream uses of other libraries: the codec, and whether bytes are UTF-8.
pub record Outside : Type 1 where
  pub State : Type 0
  pub decode : State → Bytes → Decoded State
  pub is_utf8 : Bytes → Bool

is_empty : Bytes → Bool
is_empty [] = true
is_empty (b ∷ bs) = false

-- The bytes of `b"ping"` and the number of `CloseCode::Normal`.
abbrev pub ping_bytes : Bytes
ping_bytes = 112 ∷ 105 ∷ 110 ∷ 103 ∷ []

abbrev pub normal_close : ℕ
normal_close = 1000

module _ (out : Outside) where
  open out use {State, decode, is_utf8}

  -- `timer` is when the heartbeat timer runs out, where there is one, and `wakes` whether it holds
  -- the waker of the task: a timer takes the waker at a poll that finds it pending, and a poll that
  -- finds it ready leaves it none.
  pub record DecodeStream : Type 0 where
    pub timer : Option ℕ
    pub wakes : Bool
    pub hb : HeartBeat
    pub queue : QueueInner
    pub codec : State
    pub read_buf : Bytes

  -- The item for a frame, and the heartbeat afterwards, at time `now`.
  pub item_of : ℕ → Frame → HeartBeat → Item × HeartBeat
  unfolding update
  item_of now (Frame.text b) hb = (if is_utf8 b then message (Message.text b) else error io, hb)
  item_of now (Frame.binary b) hb = (message (Message.binary b), hb)
  item_of now (Frame.ping b) hb = (message (Message.ping b), update now hb)
  item_of now (Frame.pong b) hb = (message (Message.pong b), update now hb)
  item_of now (Frame.close r) hb = (message (Message.close r), hb)
  item_of now (Frame.continuation i) hb = (message (Message.continuation i), hb)

  pub apply_decoded : ℕ → Decoded State → DecodeStream → Option Item × DecodeStream
  unfolding item_of
  apply_decoded now (frame c rest f) d =
      let (item, hb) = item_of now f d.hb in
      (some item, record d { codec = c; read_buf = rest; hb = hb })
  apply_decoded now (more c rest) d = (none, record d { codec = c; read_buf = rest })
  apply_decoded now (broken c rest) d =
      (some (error codec_error), record d { codec = c; read_buf = rest })

  -- The first half of the loop: decode what was read, if anything was.
  pub decode_buf : ℕ → DecodeStream → Option Item × DecodeStream
  unfolding is_empty apply_decoded
  decode_buf now d =
      if is_empty d.read_buf then (none, d) else apply_decoded now (decode d.codec d.read_buf) d

  -- The timer has run out: `reset` it, with a ping to the client if the server sends heartbeats, or
  -- close. What the second poll of the timer answers is not used: it leaves a waker if the timer that
  -- was reset is pending at `now`, and none if it is ready at once.
  beat : ℕ → ℕ → DecodeStream → Poll (Option Item) × DecodeStream
  unfolding set push
  beat now timer d =
      let (alive, timer') = set d.hb timer in
      let reset = record d { timer = some timer'; wakes = ltb now timer' } in
      if alive
      then (
        pending,
        if d.hb.server_send_heartbeat
            then record reset { queue = push (Message.ping ping_bytes) d.queue }
            else reset,
      )
      else (
        ready none,
        record d { wakes = false; queue = push (Message.close (some normal_close)) d.queue },
      )

  -- The inner stream is pending.
  pub on_pending : ℕ → DecodeStream → Poll (Option Item) × DecodeStream
  unfolding beat
  on_pending now d = elim d.timer [
    | none ↦ (pending, d)
    | some timer ↦ if ltb now timer then (pending, record d { wakes = true }) else beat now timer d
  ]

  -- The loop, over the answers of the inner stream; one that has given all of them is pending. The
  -- answers that are left come last.
  pub poll_loop :
      ℕ
      → List (Poll (Option Chunk))
      → DecodeStream
      → Poll (Option Item) × DecodeStream × List (Poll (Option Chunk))
  unfolding decode_buf on_pending
  poll_loop now [] d =
      let (item, d') = decode_buf now d in
      let (out, d'') = on_pending now d' in
      elim item [ some i ↦ (ready (some i), d', []) | none ↦ (out, d'', []) ]
  poll_loop now (pending ∷ source) d =
      let (item, d') = decode_buf now d in
      let (out, d'') = on_pending now d' in
      elim item [ some i ↦ (ready (some i), d', pending ∷ source) | none ↦ (out, d'', source) ]
  poll_loop now (ready none ∷ source) d =
      let (item, d') = decode_buf now d in
      elim item [
        | some i ↦ (ready (some i), d', ready none ∷ source)
        | none ↦ (ready none, d', source)
      ]
  poll_loop now (ready (some failure) ∷ source) d =
      let (item, d') = decode_buf now d in
      elim item [
        | some i ↦ (ready (some i), d', ready (some failure) ∷ source)
        | none ↦ (ready (some (error io)), d', source)
      ]
  poll_loop now (ready (some (chunk b)) ∷ source) d =
      let (item, d') = decode_buf now d in
      let rest = poll_loop now source (record d' { read_buf = d'.read_buf ++ b }) in
      elim item [ some i ↦ (ready (some i), d', ready (some (chunk b)) ∷ source) | none ↦ rest ]
