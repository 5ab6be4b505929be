-- ===== src/Chat/Server/Cascade.antt =====
-- What a send of the server may set off: small steps, each one send or one session removed after a
-- refused send.
use actix_send.Prelude.{
  ap, ℕ, ◌≤◌, ◌≡◌, refl, ◌∙◌, Bool, true, false, not, ◌&&◌, ◌||◌, List, [], ◌∷◌, Option, none, some,
  length, ◌==◌, if◌then◌else◌, Option-cases, inl, inr, All, arith,
}
use actix_send.Text.{Text}
use actix_send.WebSocket.{Message}
use actix_send.WebSocket.Sender.{send}
use actix_send.Chat.Server.{
  Attempt, ChatServer, find_session, remove_session, find_room, exit, is_done, send_all,
  notify_members, notify,
}
use actix_send.Chat.Server.Tables.{
  find_session-remove_session, length-remove_session, is_member, is_member-exit, All-recipients,
  All-is_member,
}

-- A send to `tx` was refused, and a send of `msg` to `tx` was taken.
unfoldable pub refused : ℕ → List Attempt → Bool
refused tx [] = false
refused tx (a ∷ attempts) = a.to == tx && not a.taken || refused tx attempts

-- The session `id` removed, from every room as well.
unfoldable pub leave : ℕ → ChatServer → ChatServer
leave id s = record s { sessions = remove_session id s.sessions; rooms = exit id s.rooms }

unfoldable pub attempt : Attempt → ChatServer → ChatServer
attempt a s = record s { attempts = a ∷ s.attempts }

pub data Step (s : ChatServer) : ChatServer → Type 0 where
  tell :
      (id : ℕ) (room : Text) (a : Attempt)
      → find_session id s.sessions ≡ some a.to
      → is_member id room s.rooms ≡ true
      → Step s (attempt a s)
  drop :
      (id : ℕ) (room : Text) {tx : ℕ}
      → find_session id s.sessions ≡ some tx
      → is_member id room s.rooms ≡ true
      → refused tx s.attempts ≡ true
      → Step s (leave id s)

pub data Steps (s : ChatServer) : ChatServer → Type 0 where
  here : Steps s s
  next : {t u : ChatServer} → Steps s t → Step t u → Steps s u

pub Steps-join : {s t u : ChatServer} → Steps s t → Steps t u → Steps s u
Steps-join xs here = xs
Steps-join xs (next ys y) = next (Steps-join xs ys) y

Step-length : {s t : ChatServer} → Step s t → length t.sessions ≤ length s.sessions
unfolding leave attempt
Step-length (tell id room a e m) = omega arith
Step-length {s} (drop id room e m r) = length-remove_session id s.sessions

pub Steps-length : {s t : ChatServer} → Steps s t → length t.sessions ≤ length s.sessions
Steps-length here = omega arith
Steps-length (next xs x) = omega (arith, Step-length x, Steps-length xs)

Step-find_session :
    {s t : ChatServer}
    → Step s t
    → (id : ℕ) {tx : ℕ} → find_session id t.sessions ≡ some tx
    → find_session id s.sessions ≡ some tx
unfolding leave attempt
Step-find_session (tell i room a e m) id h = h
Step-find_session {s} (drop i room e m r) id h =
    ground (arith, find_session-remove_session id i s.sessions, h)

-- A session that is there after some steps was there before, with the same sender.
pub Steps-find_session :
    {s t : ChatServer}
    → Steps s t
    → (id : ℕ) {tx : ℕ} → find_session id t.sessions ≡ some tx
    → find_session id s.sessions ≡ some tx
Steps-find_session here id h = h
Steps-find_session (next xs x) id h = Steps-find_session xs id (Step-find_session x id h)

-- A session that is gone stays gone.
pub Steps-none :
    {s t : ChatServer}
    → Steps s t
    → (id : ℕ) → find_session id s.sessions ≡ none
    → find_session id t.sessions ≡ none
Steps-none {s} {t} xs id h = elim (Option-cases (find_session id t.sessions)) [
  | inl e ↦ e
  | inr (tx, e) ↦ ground (arith, Steps-find_session xs id e, h)
]

pub Steps-refused :
    {s t : ChatServer}
    → Steps s t
    → (tx : ℕ) → refused tx s.attempts ≡ true
    → refused tx t.attempts ≡ true
unfolding leave attempt refused
Steps-refused here tx h = h
Steps-refused (next xs (tell id room a e m)) tx h = ground (arith, Steps-refused xs tx h)
Steps-refused (next xs (drop id room e m r)) tx h = Steps-refused xs tx h

-- A session goes only after a send to it was refused.
pub Steps-refused_gone :
    {s t : ChatServer}
    → Steps s t
    → (id : ℕ) {tx : ℕ} → find_session id s.sessions ≡ some tx
    → find_session id t.sessions ≡ none
    → refused tx t.attempts ≡ true
unfolding leave attempt refused
Steps-refused_gone here id e f = absurd (ground (arith, e, f))
Steps-refused_gone (next xs (tell i _ a _ m)) id e f = ground (arith, Steps-refused_gone xs id e f)
Steps-refused_gone {s} (next {t = t} xs (drop i there {tx = addr} g m r)) id {tx} e f =
    elim (Option-cases (find_session id t.sessions)) [
      | inl gone ↦ Steps-refused_gone xs id e gone
      | inr (tx2, h) ↦
          let mine : i ≡ id = ground (arith, find_session-remove_session id i t.sessions, f, h) in
          let one : tx ≡ tx2 = ground (arith, e, Steps-find_session xs id h) in
          let own : find_session i t.sessions ≡ some tx2 =
            ap (λ k. find_session k t.sessions) mine ∙ h in
          let same : tx ≡ addr = ground (arith, one, own, g) in rw same r
    ]

-- While a session is there, so are its rooms.
pub Steps-is_member :
    {s t : ChatServer}
    → Steps s t
    → (id : ℕ) {tx : ℕ} (room : Text) → find_session id t.sessions ≡ some tx
    → is_member id room t.rooms ≡ is_member id room s.rooms
unfolding leave attempt
Steps-is_member here id room e = refl
Steps-is_member (next xs (tell i _ a _ m)) id room e = Steps-is_member xs id room e
Steps-is_member (next {t = t} xs (drop i there f m r)) id room e = ground (
  arith,
  Steps-is_member xs id room (Step-find_session (drop i there f m r) id e),
  find_session-remove_session id i t.sessions,
  is_member-exit id i room t.rooms,
  e,
)

-- If the id has a session, it is a member of the room and a send to it was refused.
abbrev pub Doomed : Text → ℕ → ChatServer → Type 0
Doomed room id s =
    (tx : ℕ)
    → find_session id s.sessions ≡ some tx
    → (is_member id room s.rooms ≡ true) × (refused tx s.attempts ≡ true)

pub Steps-Doomed :
    {s t : ChatServer} → Steps s t → (room : Text) (id : ℕ) → Doomed room id s → Doomed room id t
Steps-Doomed xs room id h tx e =
    let (m, r) = h tx (Steps-find_session xs id e) in
    (Steps-is_member xs id room e ∙ m, Steps-refused xs tx r)

All-collect :
    (P : ℕ → Type 0) (b : Bool) {i : ℕ} (is : List ℕ)
    → All P is
    → (b ≡ false → P i)
    → All P (if b then is else i ∷ is)
All-collect P true is h new = h
All-collect P false is h new = (new refl, h)

module _ (accepts : ℕ → ℕ → Message → Bool) where
  send_all-Steps :
      (room msg : Text) (rs : List (ℕ × ℕ)) (s : ChatServer)
      → All (λ r. (find_session r.0 s.sessions ≡ some r.1) × (is_member r.0 room s.rooms ≡ true)) rs
      → let round = send_all accepts msg rs s.attempts in
        let t = record s { attempts = round.0 } in Steps s t × All (λ id. Doomed room id t) round.1
  unfolding send_all attempt refused
  send_all-Steps room msg [] s h = (here, tt)
  send_all-Steps room msg ((id, addr) ∷ rs) s h =
      let taken = is_done (send (accepts (length s.attempts) addr) (Message.text msg)) in
      let a : Attempt = record { to = addr; text = msg; taken = taken } in
      let (xs, doomed) = send_all-Steps room msg rs (attempt a s) h.1 in
      let ys = Steps-join (next here (tell id room a h.0.0 h.0.1)) xs in
      (
        ys,
        All-collect _ taken _ doomed (λ e tx f. (
          Steps-is_member ys id room f ∙ h.0.1,
          Steps-refused xs tx (ground (arith, e, h.0.0, Steps-find_session ys id f)),
        )),
      )

  notify_members-Steps :
      (room msg : Text) (skip : ℕ) (s : ChatServer) (found : Option (List ℕ))
      → find_room room s.rooms ≡ found
      → let told = notify_members accepts msg skip s found in
        Steps s told.0 × All (λ id. Doomed room id told.0) told.1
  unfolding notify_members
  notify_members-Steps room msg skip s none e = (here, tt)
  notify_members-Steps room msg skip s (some ids) e =
      send_all-Steps room msg _ s
        (All-recipients _ skip s.sessions ids (All-is_member room s.rooms ids e))

  pub notify-Steps :
      (room msg : Text) (skip : ℕ) (s : ChatServer)
      → let told = notify accepts room msg skip s in
        Steps s told.0 × All (λ id. Doomed room id told.0) told.1
  unfolding notify
  notify-Steps room msg skip s = notify_members-Steps room msg skip s (find_room room s.rooms) refl
