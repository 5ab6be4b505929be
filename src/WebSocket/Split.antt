-- ===== src/WebSocket/Split.antt =====
-- `split_stream` and the extractor of actix_send_websocket/src/lib.rs.
pub mod Life
use actix_send.Prelude.{ℕ, ◌+◌, Bool, true, false, List, [], ◌∷◌, Option, none, some, if◌then◌else◌}
use actix_send.Builder.{Duration, from_secs}
use actix_send.WebSocket.{Bytes, Message, empty_queue, WsConfig}
use actix_send.WebSocket.HeartBeat.{new}
use actix_send.WebSocket.Encode.{EncodeStream}
use actix_send.WebSocket.Encode
use actix_send.WebSocket.Decode.{DecodeStream}
use actix_send.WebSocket.Decode
use actix_send.WebSocket.Handshake.{
  Http, HandshakeError, Response, Outcome, accepted, refused, panicked, handshake_with_protocols,
}

-- The codec of the configuration, with the states that its two uses begin with, and `Codec::new`.
pub record Codec (dec : Decode.Outside) (enc : Encode.Outside) : Type 1 where
  pub Settings : Type 0
  pub fresh : Settings
  pub decoder : Settings → dec.State
  pub encoder : Settings → enc.State

module _ {dec : Decode.Outside} {enc : Encode.Outside} (codecs : Codec dec enc) where
  open codecs use {Settings, fresh, decoder, encoder}

  timer_and_interval : Option Duration → ℕ → Option ℕ × Duration
  timer_and_interval (some dur) now = (some (now + dur), dur)
  timer_and_interval none now = (none, from_secs 1)

  codec_or_new : Option Settings → Settings
  codec_or_new (some codec) = codec
  codec_or_new none = fresh

  -- At time `now`.
  pub split_stream : WsConfig Settings → ℕ → DecodeStream dec × EncodeStream enc
  unfolding timer_and_interval codec_or_new
  split_stream cfg now =
      let codec = codec_or_new cfg.codec in
      let (timer, interval) = timer_and_interval cfg.heartbeat now in
      (
        record {
          timer = timer;
          wakes = false;
          hb = new now interval cfg.timeout cfg.server_send_heartbeat;
          queue = empty_queue;
          codec = decoder codec;
          read_buf = [];
        },
        record {
          queue = empty_queue;
          rx = record { messages = []; closed = false; disconnected = false };
          codec = encoder codec;
          write_buf = [];
        },
      )

  -- What the extractor's future is ready with.
  pub data Extracted : Type 0 where
    websocket : DecodeStream dec → EncodeStream enc → Response → Extracted
    rejected : HandshakeError → Extracted
    aborted : Extracted

  protocols_or_none : Option (List Bytes) → List Bytes
  protocols_or_none none = []
  protocols_or_none (some protocols) = protocols

  extracted : Outcome → DecodeStream dec × EncodeStream enc → Extracted
  extracted (accepted res) (stream, encode) = websocket stream encode res
  extracted (refused e) _ = rejected e
  extracted panicked _ = aborted

  -- `from_request`, with the configuration that `from_req` finds.
  pub from_request : (http : Http) → http.Request → WsConfig Settings → ℕ → Extracted
  unfolding protocols_or_none extracted split_stream
  from_request http req cfg now =
      extracted (handshake_with_protocols http req (protocols_or_none cfg.protocols))
        (split_stream cfg now)
