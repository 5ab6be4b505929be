-- ===== src/WebSocket/Checks.antt =====
-- Instances of the theorems on actix_send_websocket/src/lib.rs, with a codec that keeps bytes as they
-- are.
use actix_send.Prelude.{
  ℕ, ◌+◌, ◌≤◌, ◌<◌, ◌≡◌, ◌⊎◌, refl, true, false, [], ◌∷◌, ◌++◌, none, some, ltb, if◌then◌else◌,
  arith,
}
use actix_send.FutureHandle.{ready}
use actix_send.WebSocket.{Bytes, Message, WsConfig}
use actix_send.WebSocket.HeartBeat.{new}
use actix_send.WebSocket.Encode.{Receiver, EncodeStream, bytes, is_close, is_empty}
use actix_send.WebSocket.Encode
use actix_send.WebSocket.Encode.Order.{encode_all, poll_next_lem, close_ends}
use actix_send.WebSocket.Decode.{
  Frame, frame, more, chunk, DecodeStream, message, poll_loop, ping_bytes,
}
use actix_send.WebSocket.Decode
use actix_send.WebSocket.Decode.Silence.{given_up}
use actix_send.WebSocket.Split.{Codec, split_stream}
use actix_send.WebSocket.Split.Life.{split_stream-given_up}

abbrev payload : Message → Bytes
payload (Message.text b) = b
payload (Message.binary b) = b
payload (Message.ping b) = b
payload (Message.pong b) = b
payload (Message.close _) = 0 ∷ []
payload (Message.continuation i) = i ∷ []

abbrev plain_encode : Encode.Outside
plain_encode = record {
  State = ℕ;
  encode = λ c m buf. some (c + 1, buf ++ payload m);
  ends = λ r. if r.closed then true else r.disconnected;
  ends_closed = λ r e. rw e;
}

abbrev answers : EncodeStream plain_encode
answers = record {
  queue = record { queue = Message.ping (1 ∷ []) ∷ []; waker = none; woken = [] };
  rx = record {
    messages = Message.text (2 ∷ 3 ∷ []) ∷ Message.close none ∷ [];
    closed = false;
    disconnected = false;
  };
  codec = 0;
  write_buf = [];
}

poll_next_lem_example :
    let (polled, wakes, t) = Encode.poll_next plain_encode false 9 answers in
    (t.codec ≡ 3)
    × (t.queue.queue ≡ [])
    × (t.rx ≡ record { messages = []; closed = true; disconnected = false })
    × (polled ≡ ready (some (bytes (1 ∷ 2 ∷ 3 ∷ 0 ∷ []))))
    × (wakes ≡ true)
unfolding is_close is_empty encode_all
poll_next_lem_example = poll_next_lem plain_encode false 9 answers 3 (1 ∷ 2 ∷ 3 ∷ 0 ∷ []) refl

close_ends_example :
    let (polled, wakes, t) = Encode.poll_next plain_encode false 9 answers in
    ((polled ≡ ready none) × (is_empty (1 ∷ 2 ∷ 3 ∷ 0 ∷ []) ≡ true))
    ⊎ ((polled ≡ ready (some (bytes (1 ∷ 2 ∷ 3 ∷ 0 ∷ [])))) × (wakes ≡ true))
unfolding is_close encode_all
close_ends_example = close_ends plain_encode false 9 answers 3 (1 ∷ 2 ∷ 3 ∷ 0 ∷ []) refl refl

abbrev quiet : EncodeStream plain_encode
quiet = record {
  queue = record { queue = []; waker = none; woken = [] };
  rx = record { messages = []; closed = false; disconnected = false };
  codec = 0;
  write_buf = [];
}

-- One byte is one frame: 9 is a ping, any other byte a text.
abbrev byte_frames : Decode.Outside
byte_frames = record {
  State = ℕ;
  decode = λ c bs. elim bs [
    | [] ↦ more c []
    | b ∷ rest ↦ frame (c + 1) rest (if ltb b 9 then Frame.text (b ∷ []) else Frame.ping [])
  ];
  is_utf8 = λ b. true;
}

abbrev silent : DecodeStream byte_frames
silent = record {
  timer = some 104;
  wakes = true;
  hb = new 100 4 10 true;
  queue = record { queue = []; waker = none; woken = [] };
  codec = 0;
  read_buf = [];
}

abbrev shared_codec : Codec byte_frames plain_encode
shared_codec = record { Settings = ℕ; fresh = 0; decoder = λ c. c; encoder = λ c. c }

abbrev impatient : WsConfig ℕ
impatient = record {
  codec = none;
  protocols = none;
  heartbeat = some 4;
  server_send_heartbeat = true;
  timeout = 10;
}

split_stream-given_up_example :
    (t : ℕ) × (given_up byte_frames 12 (λ k. 1) 100 (split_stream shared_codec impatient 100).0
      ≡ some t)
    × (110 ≤ t)
    × (t < 118)
split_stream-given_up_example =
    split_stream-given_up shared_codec impatient 100 4 (λ k. 1) refl (omega arith) (omega arith)
      (λ k. omega arith)
