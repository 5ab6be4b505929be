-- ===== src/Chat/World/Turns.antt =====
-- What a route's calls leave of the server: they end, give no id a new sender, and make no new room.
use actix_send.Prelude.{
  ℕ, ◌≡◌, refl, ◌∙◌, ap, Bool, true, false, List, [], ◌∷◌, Option, none, some, if◌then◌else◌, ◌⊎◌,
  arith,
}
use actix_send.Text.{Text, codes, equal, is_prefix, trim}
use actix_send.WebSocket.{Message}
use actix_send.Chat.Server.{
  ChatServer, main_room, find_session, exit, insert_in, room_names, send_message, exit_rooms,
  disconnect, join_room, connect, join,
}
use actix_send.Chat.Server.Tables.{equal_self, find_session-remove_session}
use actix_send.Chat.Server.Cascade.{
  tell, drop, Steps, here, next, attempt, leave, Steps-find_session,
}
use actix_send.Chat.Server.Ending.{
  Ends, Ends-and_then, Ends-map, Left, disconnect-Ends, exit_rooms-Ends,
}
use actix_send.Chat.Server.Members.{send_message-Steps}
use actix_send.Chat.Session.{
  Received, nop, framed, WsChatSession, named, splitn, join_command, command, on_text, on_message,
}

room_names-exit :
    (id : ℕ) (rooms : List (Text × List ℕ)) → room_names (exit id rooms) ≡ room_names rooms
unfolding room_names exit
room_names-exit id [] = refl
room_names-exit id (r ∷ rooms) = ap (λ names. r.0 ∷ names) (room_names-exit id rooms)

-- An insertion into a room that there is makes no room.
room_names-insert_in :
    (id : ℕ) (name : Text) (rooms : List (Text × List ℕ))
    → room_names rooms ≡ name ∷ []
    → room_names (insert_in id name rooms) ≡ name ∷ []
unfolding room_names insert_in
room_names-insert_in id name [] e = ground arith
room_names-insert_in id name (r ∷ []) e =
    let same : r.0 ≡ name = ground (arith, e) in
    ground (arith, e, ap (λ k. equal k name) same ∙ equal_self name)
room_names-insert_in id name (r ∷ q ∷ rooms) e = ground arith

Steps-room_names : {s t : ChatServer} → Steps s t → room_names t.rooms ≡ room_names s.rooms
unfolding attempt leave
Steps-room_names here = refl
Steps-room_names (next xs (tell i _ a e m)) = Steps-room_names xs
Steps-room_names (next {t = t} xs (drop i _ e m r)) =
    room_names-exit i t.rooms ∙ Steps-room_names xs

-- The sessions of `t` are sessions of `s`, and if the main room is the only one it stays that.
abbrev pub IsKept : ChatServer → ChatServer → Type 0
IsKept s t =
    ((id tx : ℕ) → find_session id t.sessions ≡ some tx → find_session id s.sessions ≡ some tx)
    × (room_names s.rooms ≡ main_room ∷ [] → room_names t.rooms ≡ main_room ∷ [])

Steps-IsKept : {s t : ChatServer} → Steps s t → IsKept s t
Steps-IsKept xs = (λ id tx. Steps-find_session xs id, λ e. Steps-room_names xs ∙ e)

same : (s : ChatServer) → IsKept s s
same s = (λ id tx e. e, λ e. e)

module _ (accepts : ℕ → ℕ → Message → Bool) where
  send_message-IsKept :
      (room msg : Text) (skip : ℕ) (s : ChatServer)
      → Ends (IsKept s) (send_message accepts room msg skip s)
  send_message-IsKept room msg skip s =
      Ends-map _ _ (send_message accepts room msg skip s)
        (send_message-Steps accepts room msg skip s) (λ t xs. Steps-IsKept xs)

  join-IsKept :
      (id : ℕ) (room : Text) (s : ChatServer)
      → room ≡ main_room
      → Ends (IsKept s) (join accepts id room s)
  unfolding join join_room
  join-IsKept id room s e =
      Ends-and_then _ _ (exit_rooms accepts id s) _ (exit_rooms-Ends accepts id s) (λ t xs.
        let u = join_room id room t in
        Ends-map _ _ (send_message accepts room (codes "Someone connected") id u)
          (send_message-IsKept room (codes "Someone connected") id u)
          (λ v k. (
            (λ i tx f. Steps-find_session xs i (k.0 i tx f)),
            (λ names. k.1 (
                rw e (
                  room_names-insert_in id main_room t.rooms
                    (Steps-room_names xs ∙ room_names-exit id s.rooms ∙ names)))),
          )))

  Left-IsKept :
      (id : ℕ) (s t : ChatServer) (found : Option ℕ) → Left accepts id s found t → IsKept s t
  unfolding leave
  Left-IsKept id s t none e = rw e (same s)
  Left-IsKept id s t (some tx) xs =
      let (kept, names) = Steps-IsKept xs in
      (
        (λ i addr f. ground (arith, find_session-remove_session i id s.sessions, kept i addr f)),
        (λ e. names (room_names-exit id s.rooms ∙ e)),
      )

  pub disconnect-IsKept : (id : ℕ) (s : ChatServer) → Ends (IsKept s) (disconnect accepts id s)
  disconnect-IsKept id s =
      Ends-map _ _ (disconnect accepts id s) (disconnect-Ends accepts id s)
        (λ t. Left-IsKept id s t (find_session id s.sessions))

  join_command-IsKept :
      (arg : Option Text) (r : WsChatSession) (s : ChatServer)
      → r.room ≡ main_room
      → Ends (IsKept s) (join_command accepts arg r s).1
  unfolding join_command
  join_command-IsKept none r s e = same s
  join_command-IsKept (some name) r s e = join-IsKept r.id r.room s e

  Ends-if :
      (P : ChatServer → Type 0) (b : Bool) (x y : WsChatSession × Option ChatServer)
      → Ends P x.1
      → Ends P y.1
      → Ends P (if b then x else y).1
  Ends-if P true x y p q = p
  Ends-if P false x y p q = q

  command-IsKept :
      (m : Text) (r : WsChatSession) (s : ChatServer)
      → r.room ≡ main_room
      → Ends (IsKept s) (command accepts m r s).1
  unfolding command
  command-IsKept m r s e =
      let v = splitn m in
      Ends-if _ (equal v.0 (codes "/list")) _ _ (same s) (
        Ends-if _ (equal v.0 (codes "/join")) _ _ (join_command-IsKept v.1 r s e)
          (Ends-if _ (equal v.0 (codes "/name")) _ _ (same s) (same s)))

  on_text-IsKept :
      (m : Text) (r : WsChatSession) (s : ChatServer)
      → r.room ≡ main_room
      → Ends (IsKept s) (on_text accepts m r s).1
  unfolding on_text
  on_text-IsKept m r s e =
      Ends-if _ (is_prefix (codes "/") m) _ _ (command-IsKept m r s e)
        (send_message-IsKept r.room (named r.name m) r.id s)

  -- A turn of a route in the main room ends, and keeps the sessions and the rooms.
  pub on_message-IsKept :
      (m : Received) (r : WsChatSession) (s : ChatServer)
      → r.room ≡ main_room
      → Ends (IsKept s) (on_message accepts m r s).1
  unfolding on_message
  on_message-IsKept (framed (Message.ping msg)) r s e = same s
  on_message-IsKept (framed (Message.text text)) r s e = on_text-IsKept (trim text) r s e
  on_message-IsKept (framed (Message.binary data_)) r s e = same s
  on_message-IsKept (framed (Message.close reason)) r s e = same s
  on_message-IsKept (framed (Message.continuation item)) r s e = same s
  on_message-IsKept (framed (Message.pong data_)) r s e = same s
  on_message-IsKept nop r s e = same s

  -- The sessions of `t` are the new one and sessions of `s`, and no room is made.
  abbrev pub IsEntered : ℕ → ChatServer → ChatServer → Type 0
  IsEntered id s t =
      ((i tx : ℕ)
        → find_session i t.sessions ≡ some tx
        → (i ≡ id) ⊎ (find_session i s.sessions ≡ some tx))
      × (room_names s.rooms ≡ main_room ∷ [] → room_names t.rooms ≡ main_room ∷ [])

  pub connect-IsEntered :
      (id tx : ℕ) (s : ChatServer) → Ends (IsEntered id s) (connect accepts id tx s)
  unfolding connect join_room find_session
  connect-IsEntered id tx s =
      Ends-and_then _ _ (send_message accepts main_room (codes "Someone joined") 0 s) _
        (send_message-IsKept main_room (codes "Someone joined") 0 s)
        (λ t k. (
          (λ i addr f. ground (arith, f, find_session-remove_session i id t.sessions, k.0 i addr)),
          (λ e. room_names-insert_in id main_room t.rooms (k.1 e)),
        ))
