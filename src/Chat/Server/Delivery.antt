-- ===== src/Chat/Server/Delivery.antt =====
-- Whom `send_message` reaches.
use actix_send.Prelude.{
  ℕ, ◌≡◌, ◌∙◌, ap, Bool, true, false, ◌&&◌, ◌||◌, List, [], ◌∷◌, none, some, length, ◌==◌,
  Bool-cases, inl, inr, ◌⊎◌, All, arith,
}
use actix_send.Text.{Text, equal}
use actix_send.WebSocket.{Message}
use actix_send.WebSocket.Sender.{send}
use actix_send.Chat.Server.{
  Attempt, ChatServer, find_session, contains, recipients, is_done, send_all, notify_members,
  notify, send_message,
}
use actix_send.Chat.Server.Tables.{equal_self, is_member, is_member-find_room}
use actix_send.Chat.Server.Cascade.{
  refused, Steps-refused_gone, Steps-join, notify-Steps, tell, drop, Steps, here, next, attempt,
  leave,
}
use actix_send.Chat.Server.Ending.{Ends, Ends-map, send_message-Ends}

-- Some send of `msg` to `tx` was taken.
unfoldable pub received : ℕ → Text → List Attempt → Bool
received tx msg [] = false
received tx msg (a ∷ attempts) =
    a.to == tx && equal a.text msg && a.taken || received tx msg attempts

Steps-received :
    {s t : ChatServer}
    → Steps s t
    → (tx : ℕ) (msg : Text) → received tx msg s.attempts ≡ true
    → received tx msg t.attempts ≡ true
unfolding received attempt leave
Steps-received here tx msg h = h
Steps-received (next xs (tell id room a e m)) tx msg h = ground (arith, Steps-received xs tx msg h)
Steps-received (next xs (drop id room e r m)) tx msg h = Steps-received xs tx msg h

-- Whether an entry stands among the recipients.
listed : ℕ → ℕ → List (ℕ × ℕ) → Bool
listed id tx [] = false
listed id tx (r ∷ rs) = r.0 == id && r.1 == tx || listed id tx rs

listed-recipients :
    (skip id : ℕ) {tx : ℕ} (ss : List (ℕ × ℕ)) (ids : List ℕ)
    → (id == skip) ≡ false
    → find_session id ss ≡ some tx
    → contains id ids ≡ true
    → listed id tx (recipients skip ss ids) ≡ true
unfolding listed recipients contains
listed-recipients skip id ss [] ne e h = ground arith
listed-recipients skip id {tx} ss (i ∷ ids) ne e h = elim (Bool-cases (i == id)) [
  | inl q ↦
      let same : i ≡ id = ground (arith, q) in ground (arith, ap (λ k. find_session k ss) same ∙ e)
  | inr q ↦ let rest = listed-recipients skip id {tx = tx} ss ids ne e in ground (arith, rest)
]

-- The client behind `tx` has received the text, or a send to it was refused and its session is gone.
abbrev pub IsServed : Text → ℕ → ℕ → ChatServer → Type 0
IsServed msg id tx t =
    (received tx msg t.attempts ≡ true)
    ⊎ ((refused tx t.attempts ≡ true) × (find_session id t.sessions ≡ none))

module _ (accepts : ℕ → ℕ → Message → Bool) where
  send_all_keeps :
      (msg : Text) (rs : List (ℕ × ℕ)) (attempts : List Attempt) (tx : ℕ) (m : Text)
      → received tx m attempts ≡ true
      → received tx m (send_all accepts msg rs attempts).0 ≡ true
  unfolding send_all received
  send_all_keeps msg [] attempts tx m h = h
  send_all_keeps msg ((id, addr) ∷ rs) attempts tx m h =
      let taken = is_done (send (accepts (length attempts) addr) (Message.text msg)) in
      let a : Attempt = record { to = addr; text = msg; taken = taken } in
      send_all_keeps msg rs (a ∷ attempts) tx m (ground (arith, h))

  send_all-received :
      (msg : Text) (rs : List (ℕ × ℕ)) (attempts : List Attempt) (id tx : ℕ)
      → listed id tx rs ≡ true
      → (received tx msg (send_all accepts msg rs attempts).0 ≡ true)
        ⊎ (contains id (send_all accepts msg rs attempts).1 ≡ true)
  unfolding listed send_all received contains
  send_all-received msg [] attempts id tx h = ground arith
  send_all-received msg ((i, addr) ∷ rs) attempts id tx h =
      let taken = is_done (send (accepts (length attempts) addr) (Message.text msg)) in
      let a : Attempt = record { to = addr; text = msg; taken = taken } in
      ground (
        arith,
        equal_self msg,
        send_all_keeps msg rs (a ∷ attempts) tx msg,
        send_all-received msg rs (a ∷ attempts) id tx,
      )

  All-contains :
      (P : ℕ → Type 0) (ids : List ℕ) (id : ℕ) → All P ids → contains id ids ≡ true → P id
  unfolding contains
  All-contains P [] id h e = ground arith
  All-contains P (i ∷ ids) id h e = elim (Bool-cases (i == id)) [
    | inl q ↦ let same : id ≡ i = ground (arith, q) in rw same h.0
    | inr q ↦ All-contains P ids id h.1 (ground (arith, q, e))
  ]

  notify_members_reach :
      (msg : Text) (skip id : ℕ) {tx : ℕ} (s : ChatServer) (ids : List ℕ)
      → contains id ids ≡ true
      → (id == skip) ≡ false
      → find_session id s.sessions ≡ some tx
      → let told = notify_members accepts msg skip s (some ids) in
        (received tx msg told.0.attempts ≡ true) ⊎ (contains id told.1 ≡ true)
  unfolding notify_members
  notify_members_reach msg skip id s ids h ne e =
      send_all-received msg (recipients skip s.sessions ids) s.attempts id _
        (listed-recipients skip id s.sessions ids ne e h)

  notify_reaches :
      (room msg : Text) (skip id : ℕ) {tx : ℕ} (s : ChatServer)
      → is_member id room s.rooms ≡ true
      → (id == skip) ≡ false
      → find_session id s.sessions ≡ some tx
      → let told = notify accepts room msg skip s in
        (received tx msg told.0.attempts ≡ true) ⊎ (contains id told.1 ≡ true)
  unfolding notify
  notify_reaches room msg skip id s h ne e =
      let (ids, found, inside) = is_member-find_room id room s.rooms h in
      rw found (notify_members_reach msg skip id s ids inside ne e)

  -- `send_message` ends, and each member of the room but `skip_id` that has a session has then
  -- received the text, or has no session any more since a send to it was refused.
  pub send_message-received :
      (room msg : Text) (skip id : ℕ) {tx : ℕ} (s : ChatServer)
      → is_member id room s.rooms ≡ true
      → (id == skip) ≡ false
      → find_session id s.sessions ≡ some tx
      → Ends (IsServed msg id tx) (send_message accepts room msg skip s)
  send_message-received room msg skip id {tx} s h ne e =
      Ends-map _ _ (send_message accepts room msg skip s)
        (send_message-Ends accepts room msg skip s)
        (λ t (xs, gone). elim (notify_reaches room msg skip id s h ne e) [
          | inl told ↦ inl (Steps-received xs tx msg told)
          | inr failed ↦
              let left = All-contains _ _ id gone failed in
              let all = Steps-join (notify-Steps accepts room msg skip s).0 xs in
              inr (Steps-refused_gone all id e left, left)
        ])
