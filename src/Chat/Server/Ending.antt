-- ===== src/Chat/Server/Ending.antt =====
-- `send_message`, `exit_rooms` and `disconnect` end, whatever receivers are gone.
use actix_send.Prelude.{
  ℕ, zero, suc, ◌<◌, ◌≡◌, refl, Bool, List, [], ◌∷◌, Option, none, some, length, All, All-weaken,
  arith,
}
use actix_send.Text.{Text, codes}
use actix_send.WebSocket.{Message}
use actix_send.Chat.Server.{
  ChatServer, find_session, remove_session, exit, and_then, for_each, notify, send_message_by,
  exit_rooms_by, disconnect_found, disconnect_by, disconnect_in, exited, fuel, disconnect,
  send_message, exit_rooms,
}
use actix_send.Chat.Server.Tables.{find_session-remove_session, length-remove_session_found}
use actix_send.Chat.Server.Cascade.{
  drop, Steps, here, next, Steps-join, Steps-length, Steps-none, Doomed, Steps-Doomed, leave,
  notify-Steps,
}

-- There is a result, and it is as `P` says.
abbrev pub Ends : (ChatServer → Type 0) → Option ChatServer → Type 0
Ends P none = ⊥
Ends P (some s) = P s

pub Ends-and_then :
    (P Q : ChatServer → Type 0) (o : Option ChatServer) (f : ChatServer → Option ChatServer)
    → Ends P o
    → ((s : ChatServer) → P s → Ends Q (f s))
    → Ends Q (and_then o f)
unfolding and_then
Ends-and_then P Q none f p h = absurd p
Ends-and_then P Q (some s) f p h = h s p

pub Ends-map :
    (P Q : ChatServer → Type 0) (o : Option ChatServer)
    → Ends P o
    → ((s : ChatServer) → P s → Q s)
    → Ends Q o
Ends-map P Q none p h = absurd p
Ends-map P Q (some s) p h = h s p

-- The states after some steps from `s` in which the ids have no session.
abbrev pub After : ChatServer → List ℕ → ChatServer → Type 0
After s ids t = Steps s t × All (λ id. find_session id t.sessions ≡ none) ids

-- The states after `notify`, some steps, and every failed id gone.
abbrev pub Sent : (ℕ → ℕ → Message → Bool) → Text → Text → ℕ → ChatServer → ChatServer → Type 0
Sent accepts room msg skip s t = let told = notify accepts room msg skip s in After told.0 told.1 t

module _ (n : ℕ) (inner : ℕ → ChatServer → Option ChatServer) where
  -- Below `n` sessions, `inner` ends without the id.
  abbrev Ready : Type 0
  Ready =
      (room : Text) (id : ℕ) (s : ChatServer)
      → Doomed room id s
      → length s.sessions < n
      → Ends (After s (id ∷ [])) (inner id s)

  for_each-Doomed :
      Ready
      → (room : Text) (ids : List ℕ) (s : ChatServer) → All (λ id. Doomed room id s) ids
      → length s.sessions < n
      → Ends (After s ids) (for_each inner ids s)
  unfolding for_each
  for_each-Doomed ends room [] s h few = (here, tt)
  for_each-Doomed ends room (id ∷ ids) s h few =
      Ends-and_then _ _ (inner id s) (for_each inner ids) (ends room id s h.0 few) (λ t (xs, gone).
        Ends-map _ _ (for_each inner ids t)
          (for_each-Doomed ends room ids t (All-weaken _ _ (Steps-Doomed xs room) ids h.1)
            (omega (arith, Steps-length xs)))
          (λ u (ys, all). (Steps-join xs ys, (Steps-none ys id gone.0, all))))

  for_each-Steps :
      {A : Type 0} (f : A → ChatServer → Option ChatServer)
      → ((x : A) (s : ChatServer) → length s.sessions < n → Ends (Steps s) (f x s))
      → (xs : List A) (s : ChatServer) → length s.sessions < n
      → Ends (Steps s) (for_each f xs s)
  unfolding for_each
  for_each-Steps f ends [] s few = here
  for_each-Steps f ends (x ∷ xs) s few =
      Ends-and_then _ _ (f x s) (for_each f xs) (ends x s few) (λ t ys.
        Ends-map _ _ (for_each f xs t) (for_each-Steps f ends xs t (omega (arith, Steps-length ys)))
          (λ u zs. Steps-join ys zs))

  module _ (accepts : ℕ → ℕ → Message → Bool) where
    pub send_message_by-Ends :
        Ready
        → (room msg : Text) (skip : ℕ) (s : ChatServer) → length s.sessions < n
        → Ends (Sent accepts room msg skip s) (send_message_by accepts inner room msg skip s)
    unfolding send_message_by
    send_message_by-Ends ends room msg skip s few =
        let (xs, doomed) = notify-Steps accepts room msg skip s in
        for_each-Doomed ends room _ _ doomed (omega (arith, Steps-length xs))

    pub exit_rooms_by-Ends :
        Ready
        → (id : ℕ) (s : ChatServer) → length s.sessions < n
        → Ends (Steps (record s { rooms = exit id s.rooms })) (exit_rooms_by accepts inner id s)
    unfolding exit_rooms_by
    exit_rooms_by-Ends ends id s few =
        for_each-Steps (λ room. send_message_by accepts inner room (codes "Someone disconnected") 0)
          (λ room t lt.
            Ends-map _ _ (send_message_by accepts inner room (codes "Someone disconnected") 0 t)
              (send_message_by-Ends ends room (codes "Someone disconnected") 0 t lt)
              (λ u after.
                Steps-join (notify-Steps accepts room (codes "Someone disconnected") 0 t).0
                  after.0))
          (exited id s.rooms) _ few

pub find_session-leave : (id : ℕ) (s : ChatServer) → find_session id (leave id s).sessions ≡ none
unfolding leave
find_session-leave id s = ground (arith, find_session-remove_session id id s.sessions)

module _ (accepts : ℕ → ℕ → Message → Bool) where
  -- Where a disconnect leads: nowhere if the id has no session, else on from where it is removed.
  abbrev pub Left : ℕ → ChatServer → Option ℕ → ChatServer → Type 0
  Left id s none t = t ≡ s
  Left id s (some tx) t = Steps (leave id s) t

  disconnect_found-Ends :
      (n : ℕ) (inner : ℕ → ChatServer → Option ChatServer) (id : ℕ) (s : ChatServer)
      (found : Option ℕ)
      → Ready n inner
      → find_session id s.sessions ≡ found
      → length s.sessions < suc n
      → Ends (Left id s found) (disconnect_found accepts inner id s found)
  unfolding disconnect_found leave
  disconnect_found-Ends n inner id s none ends e few = refl
  disconnect_found-Ends n inner id s (some tx) ends e few =
      exit_rooms_by-Ends n inner accepts ends id
        (record s { sessions = remove_session id s.sessions })
        (omega (arith, length-remove_session_found id s.sessions e))

  Left-After :
      (id : ℕ) (s t : ChatServer) (found : Option ℕ)
      → find_session id s.sessions ≡ found
      → (room : Text) → Doomed room id s
      → Left id s found t
      → After s (id ∷ []) t
  Left-After id s t none e room h l = rw l (here, (e, tt))
  Left-After id s t (some tx) e room h xs = (
    Steps-join (next here (drop id room e (h tx e).0 (h tx e).1)) xs,
    (Steps-none xs id (find_session-leave id s), tt),
  )

  disconnect_by-Ends :
      (n : ℕ) (inner : ℕ → ChatServer → Option ChatServer)
      → Ready n inner
      → (id : ℕ) (s : ChatServer) → length s.sessions < suc n
      → Ends (Left id s (find_session id s.sessions)) (disconnect_by accepts inner id s)
  unfolding disconnect_by
  disconnect_by-Ends n inner ends id s few =
      disconnect_found-Ends n inner id s (find_session id s.sessions) ends refl few

  -- With more fuel than there are sessions.
  disconnect_in-Ready : (n : ℕ) → Ready n (disconnect_in accepts n)
  unfolding disconnect_in
  disconnect_in-Ready zero room id s h few = absurd (omega arith)
  disconnect_in-Ready (suc n) room id s h few =
      Ends-map _ _ (disconnect_by accepts (disconnect_in accepts n) id s)
        (disconnect_by-Ends n (disconnect_in accepts n) (disconnect_in-Ready n) id s few)
        (λ t. Left-After id s t _ refl room h)

  pub disconnect-Ends :
      (id : ℕ) (s : ChatServer)
      → Ends (Left id s (find_session id s.sessions)) (disconnect accepts id s)
  unfolding disconnect disconnect_in fuel
  disconnect-Ends id s =
      let n = length s.sessions in
      disconnect_by-Ends n (disconnect_in accepts n) (disconnect_in-Ready n) id s (omega arith)

  pub send_message-Ends :
      (room msg : Text) (skip : ℕ) (s : ChatServer)
      → Ends (Sent accepts room msg skip s) (send_message accepts room msg skip s)
  unfolding send_message fuel
  send_message-Ends room msg skip s =
      let n = fuel s in
      send_message_by-Ends n (disconnect_in accepts n) accepts (disconnect_in-Ready n) room msg skip
        s (omega arith)

  pub exit_rooms-Ends :
      (id : ℕ) (s : ChatServer)
      → Ends (Steps (record s { rooms = exit id s.rooms })) (exit_rooms accepts id s)
  unfolding exit_rooms fuel
  exit_rooms-Ends id s =
      let n = fuel s in
      exit_rooms_by-Ends n (disconnect_in accepts n) accepts (disconnect_in-Ready n) id s
        (omega arith)
