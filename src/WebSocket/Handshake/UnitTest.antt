-- ===== src/WebSocket/Handshake/UnitTest.antt =====
-- The unit test `test_handshake` of actix_send_websocket/src/lib.rs, on the model of the handshake.
use actix_send.Prelude.{
  ◌≡◌, refl, Bool, true, false, ◌&&◌, List, [], ◌∷◌, Option, none, some, if◌then◌else◌,
}
use actix_send.Text.{codes, equal}
use actix_send.WebSocket.{Bytes}
use actix_send.WebSocket.Handshake.{
  Http, HeaderName, upgrade, sec_websocket_version, sec_websocket_key, sec_websocket_protocol,
  is_some, Outcome, accepted, refused, HandshakeError, get_method_required, no_websocket_upgrade,
  no_connection_upgrade, no_version_header, unsupported_version, bad_websocket_key,
  handshake_with_protocols, handshake,
}

-- `TestRequest`: the method and the headers, where `connection` is the value of the connection header.
abbrev pub Header : Type 0
Header = HeaderName × Bytes

record TestRequest : Type 0 where
  pub get_method : Bool
  pub connection : Option Bytes
  pub headers : List Header

abbrev same_header : HeaderName → HeaderName → Bool
same_header upgrade upgrade = true
same_header sec_websocket_version sec_websocket_version = true
same_header sec_websocket_key sec_websocket_key = true
same_header sec_websocket_protocol sec_websocket_protocol = true
same_header _ _ = false

abbrev lookup : List Header → HeaderName → Option Bytes
lookup [] name = none
lookup ((n, v) ∷ headers) name =
    let rest = lookup headers name in if same_header n name then some v else rest

abbrev says_upgrade : Option Bytes → Bool
says_upgrade none = false
says_upgrade (some v) = equal v (codes "upgrade")

abbrev test_http : Http
test_http = record {
  Request = TestRequest;
  is_get = λ r. r.get_method;
  get = λ r. lookup r.headers;
  contains_key = λ r h. is_some (lookup r.headers h);
  contains_key_get = λ r h. refl;
  connection_upgrade = λ r. says_upgrade r.connection;
  to_str = some;
  hash_key = λ key. key;
}

abbrev same_error : HandshakeError → HandshakeError → Bool
same_error get_method_required get_method_required = true
same_error no_websocket_upgrade no_websocket_upgrade = true
same_error no_connection_upgrade no_connection_upgrade = true
same_error no_version_header no_version_header = true
same_error unsupported_version unsupported_version = true
same_error bad_websocket_key bad_websocket_key = true
same_error _ _ = false

abbrev same_protocol : Option Bytes → Option Bytes → Bool
same_protocol none none = true
same_protocol (some p) (some q) = equal p q
same_protocol _ _ = false

-- `assert_eq!` on the error, and on the status with the protocol header.
abbrev refused_with : HandshakeError → Outcome → Bool
refused_with e (refused d) = same_error d e
refused_with e _ = false

abbrev switched_to : Option Bytes → Outcome → Bool
switched_to protocol (accepted r) = same_protocol r.protocol protocol
switched_to protocol _ = false

abbrev request : Option Bytes → List Header → TestRequest
request connection headers = record {
  get_method = true;
  connection = connection;
  headers = headers;
}

abbrev websocket : Header
websocket = (upgrade, codes "websocket")

abbrev version : Header
version = (sec_websocket_version, codes "13")

-- The headers of a good request, with one more.
abbrev asking : Header → TestRequest
asking header =
    request (some (codes "upgrade"))
      (websocket ∷ version ∷ (sec_websocket_key, codes "13") ∷ header ∷ [])

abbrev every : List Bool → Bool
every [] = true
every (b ∷ bs) = b && every bs

test_handshake : Bool
test_handshake =
    let connecting = some (codes "upgrade") in
    let keyed = websocket ∷ version ∷ (sec_websocket_key, codes "13") ∷ [] in
    every (
      refused_with get_method_required
        (handshake test_http (record (request none []) { get_method = false }))
      ∷ refused_with no_websocket_upgrade (handshake test_http (request none []))
      ∷ refused_with no_websocket_upgrade
          (handshake test_http (request none ((upgrade, codes "test") ∷ [])))
      ∷ refused_with no_connection_upgrade (handshake test_http (request none (websocket ∷ [])))
      ∷ refused_with no_version_header (handshake test_http (request connecting (websocket ∷ [])))
      ∷ refused_with unsupported_version (
          handshake test_http
            (request connecting (websocket ∷ (sec_websocket_version, codes "5") ∷ [])))
      ∷ refused_with bad_websocket_key
          (handshake test_http (request connecting (websocket ∷ version ∷ [])))
      ∷ switched_to none (handshake test_http (request connecting keyed))
      ∷ switched_to (some (codes "graphql")) (
          handshake_with_protocols test_http (asking (sec_websocket_protocol, codes "graphql"))
            (codes "graphql" ∷ []))
      ∷ switched_to (some (codes "p2")) (
          handshake_with_protocols test_http (asking (sec_websocket_protocol, codes "p1, p2, p3"))
            (codes "p3" ∷ codes "p2" ∷ []))
      ∷ switched_to (some (codes "p2")) (
          handshake_with_protocols test_http (asking (sec_websocket_protocol, codes "p1,p2,p3"))
            (codes "p3" ∷ codes "p2" ∷ []))
      ∷ [])

-- The model passes the test.
test_handshake_passes : test_handshake ≡ true
unfolding test_handshake handshake equal
test_handshake_passes = refl
