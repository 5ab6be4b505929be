-- ===== src/WebSocket/Handshake.antt =====
-- `handshake_with_protocols` of actix_send_websocket/src/lib.rs.
pub mod Protocols
mod UnitTest
mod Checks
use actix_send.Prelude.{
  ℕ, ◌+◌, ◌-◌, ◌≡◌, Bool, true, false, not, ◌&&◌, ◌||◌, List, [], ◌∷◌, ◌++◌, map, Option, none,
  some, ltb, ◌==◌, if◌then◌else◌,
}
use actix_send.Text.{codes, equal, to_ascii_lowercase, contains, split, trim}
use actix_send.WebSocket.{Bytes}

abbrev pub is_some : {A : Type 0} → Option A → Bool
is_some none = false
is_some (some a) = true

-- The headers that the handshake reads.
pub data HeaderName : Type 0 where
  upgrade sec_websocket_version sec_websocket_key sec_websocket_protocol : HeaderName

-- What the handshake uses of actix-http: the request with its method and headers, `to_str` of a header
-- value, and the hash of the key. `contains_key` agrees with `get`.
pub record Http : Type 1 where
  pub Request : Type 0
  pub is_get : Request → Bool
  pub get : Request → HeaderName → Option Bytes
  pub contains_key : Request → HeaderName → Bool
  pub contains_key_get : (r : Request) (h : HeaderName) → contains_key r h ≡ is_some (get r h)
  pub connection_upgrade : Request → Bool
  pub to_str : Bytes → Option Bytes
  pub hash_key : Bytes → Bytes

pub data HandshakeError : Type 0 where
  get_method_required no_websocket_upgrade no_connection_upgrade no_version_header : HandshakeError
  unsupported_version bad_websocket_key : HandshakeError

-- The response: the accept header, and the protocol if one was chosen. Its status and its other
-- headers are always the same.
pub record Response : Type 0 where
  pub accept : Bytes
  pub protocol : Option Bytes

-- `panicked` is an `unwrap` of nothing.
pub data Outcome : Type 0 where
  accepted : Response → Outcome
  refused : HandshakeError → Outcome
  panicked : Outcome

pub any_equal : List Bytes → Bytes → Bool
any_equal [] req = false
any_equal (p ∷ ps) req = equal p req || any_equal ps req

-- `find`
pub find_known : List Bytes → List Bytes → Option Bytes
unfolding any_equal
find_known protocols [] = none
find_known protocols (r ∷ rs) = if any_equal protocols r then some r else find_known protocols rs

module _ (http : Http) where
  open http use {Request, is_get, get, contains_key, connection_upgrade, to_str, hash_key}

  has_upgrade : Option Bytes → Bool
  unfolding contains to_ascii_lowercase
  has_upgrade none = false
  has_upgrade (some hdr) = elim (to_str hdr) [
    | none ↦ false
    | some s ↦ contains (codes "websocket") (to_ascii_lowercase s)
  ]

  supported_version : Option Bytes → Bool
  supported_version none = false
  supported_version (some hdr) =
      equal hdr (codes "13") || (equal hdr (codes "8") || equal hdr (codes "7"))

  -- The first protocol of the request's header that the server knows.
  pub choose_protocol : List Bytes → Option Bytes → Option Bytes
  unfolding find_known split trim
  choose_protocol protocols none = none
  choose_protocol protocols (some header) = elim (to_str header) [
    | none ↦ none
    | some s ↦ find_known protocols (map trim (split 44 s))
  ]

  respond : Request → List Bytes → Option Bytes → Outcome
  unfolding choose_protocol
  respond r protocols none = panicked
  respond r protocols (some key) = accepted (record {
    accept = hash_key key;
    protocol = choose_protocol protocols (get r sec_websocket_protocol);
  })

  pub handshake_with_protocols : Request → List Bytes → Outcome
  unfolding has_upgrade supported_version respond
  handshake_with_protocols r protocols =
      if not (is_get r)
      then refused get_method_required
      else if not (has_upgrade (get r upgrade))
      then refused no_websocket_upgrade
      else if not (connection_upgrade r)
      then refused no_connection_upgrade
      else if not (contains_key r sec_websocket_version)
      then refused no_version_header
      else if not (supported_version (get r sec_websocket_version))
      then refused unsupported_version
      else if not (contains_key r sec_websocket_key)
      then refused bad_websocket_key
      else respond r protocols (get r sec_websocket_key)

  pub handshake : Request → Outcome
  unfolding handshake_with_protocols
  handshake r = handshake_with_protocols r []
