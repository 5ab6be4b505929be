-- ===== src/WebSocket/HeartBeat.antt =====
-- `HeartBeat` of actix_send_websocket/src/lib.rs.
use actix_send.Prelude.{ℕ, ◌+◌, Bool, true, false, ltb, if◌then◌else◌}
use actix_send.Builder.{Duration}

-- An `Instant` is the time since some fixed moment.
pub record HeartBeat : Type 0 where
  pub server_send_heartbeat : Bool
  pub interval : Duration
  pub timeout : Duration
  pub deadline : ℕ

-- `HeartBeat::new` at time `now`.
unfoldable pub new : ℕ → Duration → Duration → Bool → HeartBeat
new now interval timeout server_send_heartbeat = record {
  server_send_heartbeat = server_send_heartbeat;
  interval = interval;
  timeout = timeout;
  deadline = now + timeout;
}

-- `HeartBeat::update` at time `now`.
unfoldable pub update : ℕ → HeartBeat → HeartBeat
update now hb = record hb { deadline = now + hb.timeout }

-- `HeartBeat::set` on a timer that runs out at `timer`: the answer and when it runs out next.
unfoldable pub set : HeartBeat → ℕ → Bool × ℕ
set hb timer = if ltb timer hb.deadline then (true, timer + hb.interval) else (false, timer)
