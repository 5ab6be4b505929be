-- ===== src/Chat/Server/Joining.antt =====
-- `connect` and `join`: where a session is afterwards.
use actix_send.Prelude.{
  ℕ, ◌≡◌, ◌∙◌, ap, Bool, true, ◌∷◌, Option, none, some, Option-cases, inl, inr, ◌⊎◌, arith,
}
use actix_send.Text.{Text, codes, equal}
use actix_send.WebSocket.{Message}
use actix_send.Chat.Server.{
  ChatServer, main_room, find_session, remove_session, exit, send_message, exit_rooms, disconnect,
  join_room, connect, join,
}
use actix_send.Chat.Server.Tables.{
  is_member, find_session-remove_session, is_member-exit, is_member-insert_in, equal_self,
}
use actix_send.Chat.Server.Cascade.{Steps, Steps-none, Steps-is_member}
use actix_send.Chat.Server.Ending.{
  Ends, Ends-and_then, Ends-map, Left, disconnect-Ends, exit_rooms-Ends,
}
use actix_send.Chat.Server.Members.{
  IsTidy, IsOutside, Steps-IsTidy, Steps-IsOutside, Steps-is_member_gone, send_message-Steps,
}

-- The rooms with `id` taken out of them.
exit-IsTidy : (id : ℕ) (s : ChatServer) → IsTidy s → IsTidy (record s { rooms = exit id s.rooms })
exit-IsTidy id s tidy i room e = ground (arith, is_member-exit i id room s.rooms, tidy i room e)

exit-IsOutside : (id : ℕ) (s : ChatServer) → IsOutside id (record s { rooms = exit id s.rooms })
exit-IsOutside id s room = ground (arith, is_member-exit id id room s.rooms)

join_room-IsTidy :
    (id : ℕ) (name : Text) {tx : ℕ} (s : ChatServer)
    → find_session id s.sessions ≡ some tx
    → IsTidy s
    → IsTidy (join_room id name s)
unfolding join_room
join_room-IsTidy id name s found tidy i room e = ground (
  arith,
  is_member-insert_in i id room name s.rooms,
  tidy i room e,
  (λ (q : i ≡ id). ap (λ k. find_session k s.sessions) q),
  found,
  e,
)

is_member-join_room :
    (id : ℕ) (name : Text) (s : ChatServer)
    → IsOutside id s
    → (room : Text) → is_member id room (join_room id name s).rooms ≡ equal name room
unfolding join_room
is_member-join_room id name s out room =
    ground (arith, is_member-insert_in id id room name s.rooms, out room)

-- The id has no session any more, or it is in the room `name` and in no other one.
abbrev pub InRoom : ℕ → Text → ChatServer → Type 0
InRoom id name t =
    (find_session id t.sessions ≡ none)
    ⊎ ((room : Text) → is_member id room t.rooms ≡ equal name room)

Steps-InRoom :
    {s t : ChatServer}
    → Steps s t
    → (id : ℕ) (name : Text) → ((room : Text) → is_member id room s.rooms ≡ equal name room)
    → InRoom id name t
Steps-InRoom {s} {t} xs id name at = elim (Option-cases (find_session id t.sessions)) [
  | inl e ↦ inl e
  | inr (tx, e) ↦ inr (λ room. Steps-is_member xs id room e ∙ at room)
]

module _ (accepts : ℕ → ℕ → Message → Bool) where
  -- What `connect` makes of a state.
  abbrev pub IsConnected : ℕ → ℕ → ChatServer → Type 0
  IsConnected id tx t =
      IsTidy t × (find_session id t.sessions ≡ some tx) × (is_member id main_room t.rooms ≡ true)

  connected :
      (id tx : ℕ) (t : ChatServer)
      → IsTidy t
      → IsConnected id tx
          (join_room id main_room (record t { sessions = (id, tx) ∷ remove_session id t.sessions }))
  unfolding join_room find_session
  connected id tx t tidy = (
    (λ i room e. ground (
      arith,
      is_member-insert_in i id room main_room t.rooms,
      find_session-remove_session i id t.sessions,
      tidy i room,
      e,
    )),
    ground arith,
    ground (arith, is_member-insert_in id id main_room main_room t.rooms, equal_self main_room),
  )

  -- `connect` ends, keeps every member of a room a session, and the id has then its sender and is in
  -- the main room.
  pub connect-IsConnected :
      (id tx : ℕ) (s : ChatServer) → IsTidy s → Ends (IsConnected id tx) (connect accepts id tx s)
  unfolding connect
  connect-IsConnected id tx s tidy =
      Ends-and_then _ _ (send_message accepts main_room (codes "Someone joined") 0 s) _
        (send_message-Steps accepts main_room (codes "Someone joined") 0 s)
        (λ t xs. connected id tx t (Steps-IsTidy xs tidy))

  -- If the id has a session, `join` ends, keeps every member of a room a session, and the id is then
  -- in the room `name` and in no other one, unless a send to it failed and it has no session.
  pub join-InRoom :
      (id : ℕ) (name : Text) {tx : ℕ} (s : ChatServer)
      → IsTidy s
      → find_session id s.sessions ≡ some tx
      → Ends (λ t. IsTidy t × InRoom id name t) (join accepts id name s)
  unfolding join join_room
  join-InRoom id name s tidy found =
      Ends-and_then _ _ (exit_rooms accepts id s) _ (exit_rooms-Ends accepts id s) (λ t xs.
        let (same, out) = Steps-IsOutside xs id (exit-IsOutside id s) in
        let tidy_t = Steps-IsTidy xs (exit-IsTidy id s tidy) in
        let u = join_room id name t in
        Ends-map _ _ (send_message accepts name (codes "Someone connected") id u)
          (send_message-Steps accepts name (codes "Someone connected") id u)
          (λ v ys. (
            Steps-IsTidy ys (join_room-IsTidy id name t (same ∙ found) tidy_t),
            Steps-InRoom ys id name (is_member-join_room id name t out),
          )))

  Left-none :
      (id : ℕ) (s : ChatServer) (found : Option ℕ) (o : Option ChatServer)
      → Ends (Left accepts id s found) o
      → found ≡ none
      → o ≡ some s
  Left-none id s none none l e = absurd l
  Left-none id s none (some t) l e = ap some l
  Left-none id s (some tx) o l e = ground arith

  disconnect_nothing :
      (id : ℕ) (s : ChatServer)
      → find_session id s.sessions ≡ none
      → disconnect accepts id s ≡ some s
  disconnect_nothing id s = Left-none id s _ _ (disconnect-Ends accepts id s)

  -- A join by an id that has no session ends with the id in the room `name`, though it has no session,
  -- and a disconnect of the id changes nothing.
  pub join_ghost :
      (id : ℕ) (name : Text) (s : ChatServer)
      → find_session id s.sessions ≡ none
      → Ends
          (λ t.
            (is_member id name t.rooms ≡ true)
            × (find_session id t.sessions ≡ none)
            × (disconnect accepts id t ≡ some t))
          (join accepts id name s)
  unfolding join join_room
  join_ghost id name s gone =
      Ends-and_then _ _ (exit_rooms accepts id s) _ (exit_rooms-Ends accepts id s) (λ t xs.
        let u = join_room id name t in
        let gone_t = Steps-none xs id gone in
        let (_, out) = Steps-IsOutside xs id (exit-IsOutside id s) in
        Ends-map _ _ (send_message accepts name (codes "Someone connected") id u)
          (send_message-Steps accepts name (codes "Someone connected") id u)
          (λ v ys.
            let gone_v = Steps-none ys id gone_t in
            (
              Steps-is_member_gone ys id name gone_t
                  ∙ is_member-join_room id name t out name
                  ∙ equal_self name,
              gone_v,
              disconnect_nothing id v gone_v,
            )))
