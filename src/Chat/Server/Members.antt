-- ===== src/Chat/Server/Members.antt =====
-- Who is in the rooms: the sessions, unless a session that is gone joins once more.
use actix_send.Prelude.{ℕ, ◌≡◌, refl, Bool, false, Option, none, some, arith}
use actix_send.Text.{Text}
use actix_send.WebSocket.{Message}
use actix_send.Chat.Server.{ChatServer, find_session, send_message, disconnect}
use actix_send.Chat.Server.Tables.{is_member, find_session-remove_session, is_member-exit}
use actix_send.Chat.Server.Cascade.{
  tell, drop, Steps, here, next, Steps-join, attempt, leave, Steps-none, notify-Steps,
}
use actix_send.Chat.Server.Ending.{
  Ends, Ends-map, Sent, Left, disconnect-Ends, send_message-Ends, find_session-leave,
}

-- Every member of a room has a session.
abbrev pub IsTidy : ChatServer → Type 0
IsTidy s =
    (id : ℕ) (room : Text) → find_session id s.sessions ≡ none → is_member id room s.rooms ≡ false

-- The id is in no room.
abbrev pub IsOutside : ℕ → ChatServer → Type 0
IsOutside id s = (room : Text) → is_member id room s.rooms ≡ false

pub leave-IsTidy : (i : ℕ) (s : ChatServer) → IsTidy s → IsTidy (leave i s)
unfolding leave
leave-IsTidy i s tidy id room e = ground (
  arith,
  find_session-remove_session id i s.sessions,
  is_member-exit id i room s.rooms,
  tidy id room,
  e,
)

pub leave-IsOutside : (id : ℕ) (s : ChatServer) → IsOutside id (leave id s)
unfolding leave
leave-IsOutside id s room = ground (arith, is_member-exit id id room s.rooms)

pub Steps-IsTidy : {s t : ChatServer} → Steps s t → IsTidy s → IsTidy t
unfolding attempt
Steps-IsTidy here tidy = tidy
Steps-IsTidy (next xs (tell i _ a e m)) tidy = Steps-IsTidy xs tidy
Steps-IsTidy (next {t = t} xs (drop i _ e m r)) tidy = leave-IsTidy i t (Steps-IsTidy xs tidy)

-- An id in no room is told nothing and keeps its session.
pub Steps-IsOutside :
    {s t : ChatServer}
    → Steps s t
    → (id : ℕ) → IsOutside id s
    → (find_session id t.sessions ≡ find_session id s.sessions) × IsOutside id t
unfolding attempt leave
Steps-IsOutside here id out = (refl, out)
Steps-IsOutside (next xs (tell i _ a e m)) id out = Steps-IsOutside xs id out
Steps-IsOutside (next {t = t} xs (drop i there e m r)) id out =
    let (same, out_t) = Steps-IsOutside xs id out in
    (
      ground (arith, same, find_session-remove_session id i t.sessions, out_t there, m),
      λ room. ground (arith, is_member-exit id i room t.rooms, out_t room),
    )

-- An id without a session stays in the rooms that it is in.
pub Steps-is_member_gone :
    {s t : ChatServer}
    → Steps s t
    → (id : ℕ) (room : Text) → find_session id s.sessions ≡ none
    → is_member id room t.rooms ≡ is_member id room s.rooms
unfolding attempt leave
Steps-is_member_gone here id room e = refl
Steps-is_member_gone (next xs (tell i _ a f m)) id room e = Steps-is_member_gone xs id room e
Steps-is_member_gone (next {t = t} xs (drop i _ f m r)) id room e = ground (
  arith,
  Steps-is_member_gone xs id room e,
  is_member-exit id i room t.rooms,
  Steps-none xs id e,
  f,
)

module _ (accepts : ℕ → ℕ → Message → Bool) where
  Sent-Steps :
      (room msg : Text) (skip : ℕ) (s t : ChatServer) → Sent accepts room msg skip s t → Steps s t
  Sent-Steps room msg skip s t (xs, gone) = Steps-join (notify-Steps accepts room msg skip s).0 xs

  pub send_message-Steps :
      (room msg : Text) (skip : ℕ) (s : ChatServer)
      → Ends (Steps s) (send_message accepts room msg skip s)
  send_message-Steps room msg skip s =
      Ends-map _ _ (send_message accepts room msg skip s)
        (send_message-Ends accepts room msg skip s) (Sent-Steps room msg skip s)

  -- Where `disconnect` leads, the id has no session and is in no room.
  abbrev pub IsGone : ℕ → ChatServer → Type 0
  IsGone id t = IsTidy t × (find_session id t.sessions ≡ none) × IsOutside id t

  Left-IsGone :
      (id : ℕ) (s t : ChatServer) (found : Option ℕ)
      → find_session id s.sessions ≡ found
      → IsTidy s
      → Left accepts id s found t
      → IsGone id t
  Left-IsGone id s t none e tidy l = rw l (tidy, e, λ room. tidy id room e)
  Left-IsGone id s t (some tx) e tidy xs = (
    Steps-IsTidy xs (leave-IsTidy id s tidy),
    Steps-none xs id (find_session-leave id s),
    (Steps-IsOutside xs id (leave-IsOutside id s)).1,
  )

  -- From a state in which every member of a room has a session, `disconnect` ends in such a state,
  -- and the id has no session and is in no room.
  pub disconnect-IsGone :
      (id : ℕ) (s : ChatServer) → IsTidy s → Ends (IsGone id) (disconnect accepts id s)
  disconnect-IsGone id s tidy =
      Ends-map _ _ (disconnect accepts id s) (disconnect-Ends accepts id s)
        (λ t. Left-IsGone id s t (find_session id s.sessions) refl tidy)
