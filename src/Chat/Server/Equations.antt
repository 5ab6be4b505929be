-- ===== src/Chat/Server/Equations.antt =====
-- `send_message`, `exit_rooms` and `disconnect` call one another as the source says, with no bound on
-- the depth.
use actix_send.Prelude.{
  ℕ, zero, suc, ◌+◌, ◌≡◌, refl, sym, ◌∙◌, ap, Bool, [], ◌∷◌, Option, none, some, length, arith,
}
use mathlib.Core.Path.{fun_ext}
use actix_send.Text.{Text, codes}
use actix_send.WebSocket.{Message}
use actix_send.Chat.Server.{
  ChatServer, find_session, remove_session, exit, exited, and_then, for_each, notify,
  send_message_by, exit_rooms_by, disconnect_found, disconnect_by, disconnect_in, fuel, disconnect,
  send_message, exit_rooms,
}
use actix_send.Chat.Server.Ending.{Ends, disconnect-Ends, send_message-Ends, exit_rooms-Ends}

pub Ends-some :
    (P : ChatServer → Type 0) (o : Option ChatServer)
    → Ends P o
    → (t : ChatServer) × (o ≡ some t) × P t
Ends-some P none p = absurd p
Ends-some P (some t) p = (t, refl, p)

-- What `f` ends in, `g` ends in as well.
abbrev Below {ℓ} :
    {A : Type ℓ}
    → (A → ChatServer → Option ChatServer)
    → (A → ChatServer → Option ChatServer)
    → Type ℓ
Below {A = A} f g = (x : A) (s t : ChatServer) → f x s ≡ some t → g x s ≡ some t

and_then-some :
    (o : Option ChatServer) (f : ChatServer → Option ChatServer) {u : ChatServer}
    → and_then o f ≡ some u
    → (t : ChatServer) × (o ≡ some t) × (f t ≡ some u)
unfolding and_then
and_then-some none f e = ground arith
and_then-some (some t) f e = (t, refl, e)

for_each-Below :
    {A : Type 0} (f g : A → ChatServer → Option ChatServer)
    → Below f g
    → Below (for_each f) (for_each g)
unfolding for_each and_then
for_each-Below f g below [] s t e = e
for_each-Below f g below (x ∷ xs) s t e =
    let (u, p, q) = and_then-some (f x s) (for_each f xs) e in
    rw (below x s u p) (for_each-Below f g below xs u t q)

module _ (accepts : ℕ → ℕ → Message → Bool) where
  module _ (f g : ℕ → ChatServer → Option ChatServer) (below : Below f g) where
    send_message_by-Below :
        (room msg : Text) (skip : ℕ) (s t : ChatServer)
        → send_message_by accepts f room msg skip s ≡ some t
        → send_message_by accepts g room msg skip s ≡ some t
    unfolding send_message_by
    send_message_by-Below room msg skip s t e = for_each-Below f g below _ _ t e

    exit_rooms_by-Below : Below (exit_rooms_by accepts f) (exit_rooms_by accepts g)
    unfolding exit_rooms_by
    exit_rooms_by-Below id s t e =
        for_each-Below _ _ (λ room. send_message_by-Below room (codes "Someone disconnected") 0)
          (exited id s.rooms) (record s { rooms = exit id s.rooms }) t e

    disconnect_found-Below :
        (id : ℕ) (s t : ChatServer) (found : Option ℕ)
        → disconnect_found accepts f id s found ≡ some t
        → disconnect_found accepts g id s found ≡ some t
    unfolding disconnect_found
    disconnect_found-Below id s t none e = e
    disconnect_found-Below id s t (some tx) e =
        exit_rooms_by-Below id (record s { sessions = remove_session id s.sessions }) t e

    disconnect_by-Below : Below (disconnect_by accepts f) (disconnect_by accepts g)
    unfolding disconnect_by
    disconnect_by-Below id s t e = disconnect_found-Below id s t (find_session id s.sessions) e

  disconnect_in-suc : (n : ℕ) → Below (disconnect_in accepts n) (disconnect_in accepts (suc n))
  unfolding disconnect_in
  disconnect_in-suc zero id s t e = ground arith
  disconnect_in-suc (suc n) id s t e =
      disconnect_by-Below (disconnect_in accepts n) (disconnect_in accepts (suc n))
        (disconnect_in-suc n) id s t e

  disconnect_in_more :
      (k n m : ℕ) → m ≡ k + n → Below (disconnect_in accepts n) (disconnect_in accepts m)
  disconnect_in_more zero n m q id s t e = let same : m ≡ n = omega arith in rw same e
  disconnect_in_more (suc k) n m q id s t e =
      let above : m ≡ suc (k + n) = omega arith in
      rw above (disconnect_in-suc (k + n) id s t (disconnect_in_more k n (k + n) refl id s t e))

  -- Any fuel that is enough gives what the fuel of `disconnect` gives.
  disconnect_in-disconnect : (n : ℕ) → Below (disconnect_in accepts n) (disconnect accepts)
  unfolding disconnect
  disconnect_in-disconnect n id s t e =
      let (u, f, _) = Ends-some _ (disconnect accepts id s) (disconnect-Ends accepts id s) in
      let m = fuel s + n in
      let low = disconnect_in_more (fuel s) n m refl id s t e in
      let high = disconnect_in_more n (fuel s) m (omega arith) id s u f in f ∙ sym high ∙ low

  -- An operation that ends, and that another one ends like, is that other one.
  agree :
      (P : ChatServer → Type 0) (o r : Option ChatServer)
      → Ends P o
      → ((t : ChatServer) → o ≡ some t → r ≡ some t)
      → o ≡ r
  agree P o r ends below = let (t, e, _) = Ends-some _ o ends in e ∙ sym (below t e)

  disconnect-disconnect_by :
      (id : ℕ) (s : ChatServer)
      → disconnect accepts id s ≡ disconnect_by accepts (disconnect accepts) id s
  unfolding disconnect disconnect_in fuel
  disconnect-disconnect_by id s =
      let n = length s.sessions in
      agree _ _ _ (disconnect-Ends accepts id s) (
        disconnect_by-Below (disconnect_in accepts n) (disconnect accepts)
          (disconnect_in-disconnect n) id s)

  send_message-send_message_by :
      (room msg : Text) (skip : ℕ) (s : ChatServer)
      → send_message accepts room msg skip s
        ≡ send_message_by accepts (disconnect accepts) room msg skip s
  unfolding send_message
  send_message-send_message_by room msg skip s =
      agree _ _ _ (send_message-Ends accepts room msg skip s) (
        send_message_by-Below (disconnect_in accepts (fuel s)) (disconnect accepts)
          (disconnect_in-disconnect (fuel s)) room msg skip s)

  exit_rooms-exit_rooms_by :
      (id : ℕ) (s : ChatServer)
      → exit_rooms accepts id s ≡ exit_rooms_by accepts (disconnect accepts) id s
  unfolding exit_rooms
  exit_rooms-exit_rooms_by id s = agree _ _ _ (exit_rooms-Ends accepts id s) (
      exit_rooms_by-Below (disconnect_in accepts (fuel s)) (disconnect accepts)
        (disconnect_in-disconnect (fuel s)) id s)

  exit_rooms_by-for_each :
      (id : ℕ) (s : ChatServer)
      → exit_rooms_by accepts (disconnect accepts) id s
        ≡ for_each
            (λ room. send_message accepts room (codes "Someone disconnected") 0)
            (exited id s.rooms)
            (record s { rooms = exit id s.rooms })
  unfolding exit_rooms_by
  exit_rooms_by-for_each id s =
      ap
        (λ (f : Text → ChatServer → Option ChatServer).
          for_each f (exited id s.rooms) (record s { rooms = exit id s.rooms }))
        (fun_ext (λ room.
          fun_ext
            (λ t. sym (send_message-send_message_by room (codes "Someone disconnected") 0 t))))

  disconnect_found-exit_rooms :
      (id : ℕ) (s : ChatServer) (found : Option ℕ)
      → disconnect_found accepts (disconnect accepts) id s found ≡ elim found [
        | none ↦ some s
        | some tx ↦ exit_rooms accepts id (record s { sessions = remove_session id s.sessions })
      ]
  unfolding disconnect_found
  disconnect_found-exit_rooms id s none = refl
  disconnect_found-exit_rooms id s (some tx) =
      sym (exit_rooms-exit_rooms_by id (record s { sessions = remove_session id s.sessions }))

  -- With no bound on the depth, `send_message` notifies and disconnects the ids that failed,
  -- `exit_rooms` takes the id out of the rooms and sends to those that had it, `disconnect` removes the
  -- session and, if there was one, exits the rooms.
  pub chat_calls :
      (room msg : Text) (skip id : ℕ) (s : ChatServer)
      → (send_message accepts room msg skip s
          ≡ for_each
              (disconnect accepts)
              (notify accepts room msg skip s).1
              (notify accepts room msg skip s).0)
        × (exit_rooms accepts id s
            ≡ for_each
                (λ name. send_message accepts name (codes "Someone disconnected") 0)
                (exited id s.rooms)
                (record s { rooms = exit id s.rooms }))
        × (disconnect accepts id s ≡ elim (find_session id s.sessions) [
          | none ↦ some s
          | some tx ↦ exit_rooms accepts id (record s { sessions = remove_session id s.sessions })
        ])
  unfolding send_message_by disconnect_by
  chat_calls room msg skip id s = (
    send_message-send_message_by room msg skip s,
    exit_rooms-exit_rooms_by id s ∙ exit_rooms_by-for_each id s,
    disconnect-disconnect_by id s ∙ disconnect_found-exit_rooms id s (find_session id s.sessions),
  )
