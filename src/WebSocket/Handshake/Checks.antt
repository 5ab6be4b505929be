-- ===== src/WebSocket/Handshake/Checks.antt =====
-- Instances of the theorems on the handshake of actix_send_websocket/src/lib.rs.
use mathlib.Core.List.{Memᴰ}
use actix_send.Prelude.{ℕ, ◌≡◌, refl, true, List, [], ◌∷◌, Option, some}
use actix_send.Text.{codes, equal, contains, to_ascii_lowercase}
use actix_send.WebSocket.{Bytes}
use actix_send.WebSocket.Handshake.{
  Http, HeaderName, upgrade, sec_websocket_version, sec_websocket_key, sec_websocket_protocol,
  is_some, choose_protocol, handshake_with_protocols,
}
use actix_send.WebSocket.Handshake.Protocols.{IsSupported, handshake_accepted}

-- A request is the value of its protocol header; the other headers are always right.
abbrev headers : List ℕ → HeaderName → Option Bytes
headers r upgrade = some (codes "WebSocket")
headers r sec_websocket_version = some (codes "13")
headers r sec_websocket_key = some (codes "key")
headers r sec_websocket_protocol = some r

abbrev browser : Http
browser = record {
  Request = List ℕ;
  is_get = λ r. true;
  get = headers;
  contains_key = λ r h. is_some (headers r h);
  contains_key_get = λ r h. refl;
  connection_upgrade = λ r. true;
  to_str = some;
  hash_key = λ b. 1 ∷ b;
}

handshake_accepted_example :
    (true ≡ true)
    × ((hdr : Bytes) × (s : Bytes) × (some (codes "WebSocket") ≡ some hdr)
        × (some hdr ≡ some s)
        × (contains (codes "websocket") (to_ascii_lowercase s) ≡ true))
    × (true ≡ true)
    × ((v : Bytes) × (some (codes "13") ≡ some v) × IsSupported browser v)
    × ((key : Bytes) × (some (codes "key") ≡ some key) × (1 ∷ codes "key" ≡ 1 ∷ key))
    × (some (codes "chat")
        ≡ choose_protocol browser (codes "chat" ∷ []) (some (codes "soap, chat")))
    × ((q : Bytes) → some (codes "chat") ≡ some q → Memᴰ q (codes "chat" ∷ []))
unfolding handshake_with_protocols equal
handshake_accepted_example =
    handshake_accepted browser (codes "soap, chat") (codes "chat" ∷ [])
      (record { accept = 1 ∷ codes "key"; protocol = some (codes "chat") }) refl
