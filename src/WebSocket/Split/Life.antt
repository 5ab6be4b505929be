-- ===== src/WebSocket/Split/Life.antt =====
-- The heartbeat of a decode stream that `split_stream` of actix_send_websocket/src/lib.rs makes.
use actix_send.Prelude.{ℕ, suc, ◌+◌, ◌*◌, ◌≤◌, ◌<◌, ◌≡◌, ◌∙◌, refl, ap, [], ◌∷◌, some, arith}
use actix_send.Builder.{Duration}
use actix_send.WebSocket.{WsConfig}
use actix_send.WebSocket.HeartBeat.{new}
use actix_send.WebSocket.Encode
use actix_send.WebSocket.Decode.{poll_loop}
use actix_send.FutureHandle.{pending}
use actix_send.WebSocket.Decode
use actix_send.WebSocket.Decode.Silence.{
  given_up, poll_loop-waiting, given_up_waiting, given_up_between,
}
use actix_send.WebSocket.Split.{Codec, split_stream, timer_and_interval}

module _ {dec : Decode.Outside} {enc : Encode.Outside} (codecs : Codec dec enc) where
  open codecs use {Settings}

  started :
      (cfg : WsConfig Settings) (now : ℕ) (dur : Duration)
      → cfg.heartbeat ≡ some dur
      → let d = (split_stream codecs cfg now).0 in
        (d.read_buf ≡ [])
        × (d.timer ≡ some (now + dur))
        × (d.hb ≡ new now dur cfg.timeout cfg.server_send_heartbeat)
  unfolding split_stream timer_and_interval
  started cfg now dur beats = rw beats (refl, refl, refl)

  -- The stream of `split_stream`, with a heartbeat and a timeout above 0, for a client that sends
  -- nothing. Its task is polled at the start and then each time its timer wakes it, always less than
  -- one heartbeat late. Then `timeout + 2` polls are enough: one of them ends the stream, at a time that
  -- is not before the timeout, and less than two heartbeats after it.
  pub split_stream-given_up :
      (cfg : WsConfig Settings) (now : ℕ) (dur : Duration) (late : ℕ → ℕ)
      → cfg.heartbeat ≡ some dur
      → 0 < dur
      → 0 < cfg.timeout
      → ((k : ℕ) → late k < dur)
      → (t : ℕ) × (given_up dec (suc (cfg.timeout + 1)) late now (split_stream codecs cfg now).0
          ≡ some t)
        × (now + cfg.timeout ≤ t)
        × (t < now + cfg.timeout + 2 * dur)
  unfolding new
  split_stream-given_up cfg now dur late beats pos some_time lates =
      let d = (split_stream codecs cfg now).0 in
      let (empty, runs, hb) = started cfg now dur beats in
      let (_, next, _, same, read) =
        poll_loop-waiting dec now (now + dur) d empty runs (omega arith) in
      let (t, up, after, before) =
        given_up_between dec dur (now + cfg.timeout) (cfg.timeout + 1) (λ k. late (suc k))
          (now + dur + late 0) (now + dur) (poll_loop dec now (pending ∷ []) d).1 read next
          (ap (λ x. x.interval) (same ∙ hb)) (ap (λ x. x.deadline) (same ∙ hb)) (omega arith)
          (ground (arith, lates 0)) (λ k. lates (suc k)) (grind arith) (omega arith) in
      (
        t,
        given_up_waiting dec (cfg.timeout + 1) late now (now + dur) d empty runs (omega arith) ∙ up,
        after,
        before,
      )
