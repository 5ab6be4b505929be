-- ===== src/WebSocket/Handshake/Protocols.antt =====
-- What an accepted handshake has checked, and which protocol it chooses.
use actix_send.Prelude.{
  ◌≡◌, refl, sym, ap, ◌∙◌, ◌⊎◌, inl, inr, true, List, [], ◌∷◌, Option, none, some, arith,
  Bool-cases, Option-cases,
}
use mathlib.Core.List.{Memᴰ}
use mathlib.Core.List.Memᴰ.{head, tail, cast}
use actix_send.Text.{codes, equal, to_ascii_lowercase, contains}
use actix_send.Text.Equal.{equal_lem}
use actix_send.WebSocket.{Bytes}
use actix_send.WebSocket.Handshake.{
  any_equal, find_known, is_some, has_upgrade, supported_version, Http, upgrade,
  sec_websocket_version, sec_websocket_key, sec_websocket_protocol, Response, accepted, panicked,
  choose_protocol, respond, handshake_with_protocols,
}

any_equal-Mem : (ps : List Bytes) (q : Bytes) → any_equal ps q ≡ true → Memᴰ q ps
unfolding any_equal
any_equal-Mem [] q e = ground arith
any_equal-Mem (p ∷ ps) q e = elim (Bool-cases (equal p q)) [
  | inl same ↦ head (sym (equal_lem p q same))
  | inr other ↦ tail (any_equal-Mem ps q (ground arith))
]

found_same :
    (ps rs : List Bytes) (r q : Bytes)
    → any_equal ps r ≡ true
    → find_known ps (r ∷ rs) ≡ some q
    → q ≡ r
unfolding find_known
found_same ps rs r q known e = ground arith

find_known-Mem :
    (ps rs : List Bytes) (q : Bytes) → find_known ps rs ≡ some q → Memᴰ q ps × Memᴰ q rs
unfolding find_known
find_known-Mem ps [] q e = ground arith
find_known-Mem ps (r ∷ rs) q e = elim (Bool-cases (any_equal ps r)) [
  | inl known ↦
      let same = found_same ps rs r q known e in (cast same (any_equal-Mem ps r known), head same)
  | inr unknown ↦
      let (offered, asked) = find_known-Mem ps rs q (ground arith) in (offered, tail asked)
]

module _ (http : Http) where
  open http use {
    Request, is_get, get, contains_key, contains_key_get, connection_upgrade, to_str, hash_key,
  }

  -- The handshake never unwraps a key that is not there: every request is accepted or refused.
  pub handshake_with_protocols_total :
      (r : Request) (ps : List Bytes) → ¬ (handshake_with_protocols http r ps ≡ panicked)
  unfolding handshake_with_protocols respond
  handshake_with_protocols_total r ps e = ground (arith, contains_key_get r sec_websocket_key)

  -- A protocol that is chosen is one of the server's.
  choose_protocol-Mem :
      (ps : List Bytes) (header : Option Bytes) (q : Bytes)
      → choose_protocol http ps header ≡ some q
      → Memᴰ q ps
  unfolding choose_protocol
  choose_protocol-Mem ps none q e = ground arith
  choose_protocol-Mem ps (some h) q e = elim (Option-cases (to_str h)) [
    | inl unreadable ↦ ground arith
    | inr (s, readable) ↦ (find_known-Mem ps _ q (rw (choose_protocol, readable) at e)).0
  ]

  respond_accepted :
      (r : Request) (ps : List Bytes) (key : Option Bytes) (answer : Response)
      → respond http r ps key ≡ accepted answer
      → ((k : Bytes) × (key ≡ some k) × (answer.accept ≡ hash_key k))
        × (answer.protocol ≡ choose_protocol http ps (get r sec_websocket_protocol))
  unfolding respond
  respond_accepted r ps none answer e = ground arith
  respond_accepted r ps (some k) answer e = ((k, refl, cc), cc)

  has_upgrade_readable :
      (header : Option Bytes)
      → has_upgrade http header ≡ true
      → (hdr : Bytes) × (s : Bytes) × (header ≡ some hdr)
        × (to_str hdr ≡ some s)
        × (contains (codes "websocket") (to_ascii_lowercase s) ≡ true)
  unfolding has_upgrade
  has_upgrade_readable none e = ground arith
  has_upgrade_readable (some hdr) e = elim (Option-cases (to_str hdr)) [
    | inl unreadable ↦ ground arith
    | inr (s, readable) ↦ (hdr, s, refl, readable, ground (arith, readable, e))
  ]

  -- The versions that the server speaks.
  abbrev pub IsSupported : Bytes → Type 0
  IsSupported v = (v ≡ codes "13") ⊎ (v ≡ codes "8") ⊎ (v ≡ codes "7")

  supported_version-IsSupported :
      (header : Option Bytes)
      → supported_version http header ≡ true
      → (v : Bytes) × (header ≡ some v) × IsSupported v
  unfolding supported_version
  supported_version-IsSupported none e = ground arith
  supported_version-IsSupported (some v) e = (
    v,
    refl,
    elim (Bool-cases (equal v (codes "13"))) [
      | inl q ↦ inl (equal_lem v (codes "13") q)
      | inr no13 ↦ inr (elim (Bool-cases (equal v (codes "8"))) [
        | inl q ↦ inl (equal_lem v (codes "8") q)
        | inr no8 ↦ inr (equal_lem v (codes "7") (ground (arith, no13, no8, e)))
      ])
    ],
  )

  -- An accepted handshake got as far as its answer.
  reaches_respond :
      (r : Request) (ps : List Bytes) (answer : Response)
      → handshake_with_protocols http r ps ≡ accepted answer
      → (is_get r ≡ true)
        × (has_upgrade http (get r upgrade) ≡ true)
        × (connection_upgrade r ≡ true)
        × (supported_version http (get r sec_websocket_version) ≡ true)
        × (respond http r ps (get r sec_websocket_key) ≡ accepted answer)
  unfolding handshake_with_protocols
  reaches_respond r ps answer e = ground arith

  -- A handshake that is accepted was a GET with an `Upgrade` header that `to_str` reads and that holds
  -- "websocket" in lower case, whose connection is an upgrade, with a version header of 13, 8 or 7 and
  -- with a key. The answer hashes that key, its protocol is the one that is chosen from the request's
  -- protocol header, and if there is one it is one of the server's.
  pub handshake_accepted :
      (r : Request) (ps : List Bytes) (answer : Response)
      → handshake_with_protocols http r ps ≡ accepted answer
      → (is_get r ≡ true)
        × ((hdr : Bytes) × (s : Bytes) × (get r upgrade ≡ some hdr)
            × (to_str hdr ≡ some s)
            × (contains (codes "websocket") (to_ascii_lowercase s) ≡ true))
        × (connection_upgrade r ≡ true)
        × ((v : Bytes) × (get r sec_websocket_version ≡ some v) × IsSupported v)
        × ((key : Bytes) × (get r sec_websocket_key ≡ some key) × (answer.accept ≡ hash_key key))
        × (answer.protocol ≡ choose_protocol http ps (get r sec_websocket_protocol))
        × ((q : Bytes) → answer.protocol ≡ some q → Memᴰ q ps)
  handshake_accepted r ps answer e =
      let (is_a_get, header, upgrades, version, answers) = reaches_respond r ps answer e in
      let (key, chosen) = respond_accepted r ps _ answer answers in
      (
        is_a_get,
        has_upgrade_readable _ header,
        upgrades,
        supported_version-IsSupported _ version,
        key,
        chosen,
        λ q named. choose_protocol-Mem ps _ q (sym chosen ∙ named),
      )

  readable_has_upgrade :
      (header : Option Bytes) (hdr s : Bytes)
      → header ≡ some hdr
      → to_str hdr ≡ some s
      → contains (codes "websocket") (to_ascii_lowercase s) ≡ true
      → has_upgrade http header ≡ true
  unfolding has_upgrade
  readable_has_upgrade header hdr s there readable holds =
      rw there (rw (has_upgrade, readable) holds)

  IsSupported-supported_version :
      (header : Option Bytes) (v : Bytes)
      → header ≡ some v
      → IsSupported v
      → supported_version http header ≡ true
  unfolding supported_version equal
  IsSupported-supported_version header v there (inl q) = rw (there, q) refl
  IsSupported-supported_version header v there (inr (inl q)) = rw (there, q) refl
  IsSupported-supported_version header v there (inr (inr q)) = rw (there, q) refl

  -- A GET with an `Upgrade` header that `to_str` reads and that holds "websocket" in lower case, whose
  -- connection is an upgrade, with a version header of 13, 8 or 7 and with a key, is accepted: the
  -- answer hashes the key and names the protocol that is chosen from the request's protocol header.
  pub handshake_accepts :
      (r : Request) (ps : List Bytes) (hdr s v key : Bytes)
      → is_get r ≡ true
      → get r upgrade ≡ some hdr
      → to_str hdr ≡ some s
      → contains (codes "websocket") (to_ascii_lowercase s) ≡ true
      → connection_upgrade r ≡ true
      → get r sec_websocket_version ≡ some v
      → IsSupported v
      → get r sec_websocket_key ≡ some key
      → handshake_with_protocols http r ps
        ≡ accepted (record {
          accept = hash_key key;
          protocol = choose_protocol http ps (get r sec_websocket_protocol);
        })
  unfolding handshake_with_protocols respond
  handshake_accepts r ps hdr s v key is_a_get up readable holds upgrades version supported keyed =
      let header = readable_has_upgrade (get r upgrade) hdr s up readable holds in
      let speaks =
        IsSupported-supported_version (get r sec_websocket_version) v version supported in
      let known : contains_key r sec_websocket_version ≡ true =
        contains_key_get r sec_websocket_version ∙ ap is_some version in
      let secret : contains_key r sec_websocket_key ≡ true =
        contains_key_get r sec_websocket_key ∙ ap is_some keyed in
      rw (is_a_get, header, upgrades, known, speaks, secret, keyed) refl
