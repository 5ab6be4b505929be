-- ===== src/Chat/World/Reached.antt =====
-- What holds whatever the routes do in whatever order.
use actix_send.Prelude.{
  ℕ, ◌≡◌, refl, ◌∙◌, sym, ap, Bool, [], ◌∷◌, Option, none, some, ◌==◌, Bool-cases, inl, inr, ◌⊎◌,
  update, update-All, arith,
}
use mathlib.Core.Path.{subst}
use actix_send.WebSocket.{Message, empty_queue}
use actix_send.Chat.Server.{ChatServer, main_room, find_session, room_names, list_rooms}
use actix_send.Chat.Server.Ending.{Ends, Left, disconnect-Ends, find_session-leave}
use actix_send.Chat.Server.Equations.{Ends-some}
use actix_send.Chat.Server.Cascade.{Steps-none}
use actix_send.Chat.Session.{Received, WsChatSession, new_session, drop_session, on_message}
use actix_send.Chat.World.{Phase, over, live, World, Step, enter, turn, finish, Reach, start, next}
use actix_send.Chat.World.Sessions.{on_message-IsSame}
use actix_send.Chat.World.Turns.{on_message-IsKept, connect-IsEntered, disconnect-IsKept}

-- What a call that ends in `t` ends in.
Ends-some_at :
    (P : ChatServer → Type 0) (o : Option ChatServer) {t : ChatServer} → Ends P o → o ≡ some t → P t
Ends-some_at P none p e = absurd p
Ends-some_at P (some s) {t} p e = let same : s ≡ t = ground (arith, e) in subst P same p

-- A running route has the id.
abbrev pub Runs : World → ℕ → Type 0
Runs w id = (i : ℕ) × (r : WsChatSession) × (w.routes i ≡ live r) × (r.id ≡ id)

record Inv (w : World) : Type 0 where
  served : (id tx : ℕ) → find_session id w.server.sessions ≡ some tx → Runs w id
  main : (i : ℕ) (r : WsChatSession) → w.routes i ≡ live r → r.room ≡ main_room
  names : room_names w.server.rooms ≡ main_room ∷ []

update-here : (f : ℕ → Phase) (i : ℕ) (p : Phase) → update f i p i ≡ p
update-here f i p = ground arith

-- Each route but `i` runs on when `i` changes.
Runs-update :
    (w : World) (s : ChatServer) (i id : ℕ) (p : Phase)
    → Runs w id
    → Runs (record { server = s; routes = update w.routes i p }) id
      ⊎ ((r : WsChatSession) × (w.routes i ≡ live r) × (r.id ≡ id))
Runs-update w s i id p (k, r, f, same) = elim (Bool-cases (i == k)) [
  | inl at ↦ let here : i ≡ k = ground (arith, at) in inr (r, ap w.routes here ∙ f, same)
  | inr off ↦ inl (k, r, ground (arith, off, f), same)
]

-- A running route that becomes `q` of the same id, and the other ones.
Runs-live :
    (w : World) (s : ChatServer) (i id : ℕ) (r q : WsChatSession)
    → w.routes i ≡ live r
    → q.id ≡ r.id
    → Runs w id
    → Runs (record { server = s; routes = update w.routes i (live q) }) id
Runs-live w s i id r q e same runs = elim (Runs-update w s i id (live q) runs) [
  | inl on ↦ on
  | inr (r2, f, g) ↦
      let one : r ≡ r2 = ground (arith, e, f) in
      (i, q, update-here w.routes i (live q), same ∙ ap (λ (x : WsChatSession). x.id) one ∙ g)
]

main_update :
    (w : World) (i : ℕ) (p : Phase)
    → ((r : WsChatSession) → p ≡ live r → r.room ≡ main_room)
    → ((j : ℕ) (r : WsChatSession) → w.routes j ≡ live r → r.room ≡ main_room)
    → (j : ℕ) (r : WsChatSession) → update w.routes i p j ≡ live r
    → r.room ≡ main_room
main_update w i p new old =
    update-All (λ x. (r : WsChatSession) → x ≡ live r → r.room ≡ main_room) w.routes i p new old

live-injective : {r q : WsChatSession} → live r ≡ live q → r ≡ q
live-injective e = ground (arith, e)

module _ (accepts : ℕ → ℕ → Message → Bool) where
  Left-none :
      (id : ℕ) (s t : ChatServer) (found : Option ℕ)
      → find_session id s.sessions ≡ found
      → Left accepts id s found t
      → find_session id t.sessions ≡ none
  Left-none id s t none e l = rw l e
  Left-none id s t (some tx) e xs = Steps-none xs id (find_session-leave id s)

  Step-Inv : {v w : World} → Step accepts v w → Inv v → Inv w
  unfolding new_session drop_session
  Step-Inv {v} (enter i id tx {s} e f) inv =
      let (news, names) = Ends-some_at _ _ (connect-IsEntered accepts id tx v.server) f in
      let r = (new_session accepts id tx empty_queue v.server).0 in
      record {
        served = λ j addr g. elim (news j addr g) [
          | inl mine ↦ (i, r, update-here v.routes i (live r), sym mine)
          | inr old ↦ elim (Runs-update v s i j (live r) (inv.served j addr old)) [
            | inl on ↦ on
            | inr (q, h, _) ↦ ground (arith, e, h)
          ]
        ];
        main =
            main_update v i (live r)
              (λ q g. ap (λ (x : WsChatSession). x.room) (sym (live-injective g))) inv.main;
        names = names inv.names;
      }
  Step-Inv {v} (turn i {r} m {s} e on f) inv =
      let q = (on_message accepts m r v.server).0 in
      let (id_same, room_same) = on_message-IsSame accepts m r v.server in
      let (kept, names) =
        Ends-some_at _ _ (on_message-IsKept accepts m r v.server (inv.main i r e)) f in
      record {
        served = λ j addr g. Runs-live v s i j r q e id_same (inv.served j addr (kept j addr g));
        main =
            main_update v i (live q)
              (λ x g.
                ap (λ (y : WsChatSession). y.room) (sym (live-injective g))
                ∙ room_same
                ∙ inv.main i r e)
              inv.main;
        names = names inv.names;
      }
  Step-Inv {v} (finish i {r} {s} e f) inv =
      let (kept, names) = Ends-some_at _ _ (disconnect-IsKept accepts r.id v.server) f in
      let gone = Ends-some_at _ _ (disconnect-Ends accepts r.id v.server) f in
      let none_left = Left-none r.id v.server s _ refl gone in
      record {
        served = λ j addr g. elim (Runs-update v s i j over (inv.served j addr (kept j addr g))) [
          | inl on ↦ on
          | inr (q, h, same) ↦
              let one : q.id ≡ r.id =
                ap (λ (x : WsChatSession). x.id) (live-injective (sym h ∙ e)) in
              let mine : j ≡ r.id = sym same ∙ one in
              ground (arith, none_left, ap (λ k. find_session k s.sessions) mine, g)
        ];
        main = main_update v i over (λ q g. ground (arith, g)) inv.main;
        names = names inv.names;
      }

  Reach-Inv : {w : World} → Reach accepts w → Inv w
  unfolding find_session room_names
  Reach-Inv start = record {
    served = λ id tx e. absurd (ground (arith, e));
    main = λ i r e. absurd (ground (arith, e));
    names = refl;
  }
  Reach-Inv (next h s) = Step-Inv s (Reach-Inv h)

  -- In every reached world, each session of the server belongs to a route that runs.
  pub Reach-Runs :
      {w : World}
      → Reach accepts w
      → (id : ℕ) {tx : ℕ} → find_session id w.server.sessions ≡ some tx
      → Runs w id
  Reach-Runs h id e = (Reach-Inv h).served id _ e

  -- In every reached world, the main room is the only one, whatever joins the routes were asked for.
  pub Reach-list_rooms : {w : World} → Reach accepts w → list_rooms w.server ≡ main_room ∷ []
  unfolding list_rooms
  Reach-list_rooms h = (Reach-Inv h).names

  -- In every reached world in which some route runs, that route can take any message and can end, and
  -- a new route can open with any id and sender: the server's call ends, whatever receivers are gone.
  pub Reach-ends :
      {w : World}
      → Reach accepts w
      → (i : ℕ) (r : WsChatSession) → w.routes i ≡ live r
      → (m : Received) (id tx : ℕ)
      → ((s : ChatServer) × ((on_message accepts m r w.server).1 ≡ some s))
        × ((s : ChatServer) × (drop_session accepts r w.server ≡ some s))
        × ((s : ChatServer) × ((new_session accepts id tx empty_queue w.server).1 ≡ some s))
  unfolding new_session drop_session
  Reach-ends {w} h i r e m id tx =
      let (s, f, _) =
        Ends-some _ _ (on_message-IsKept accepts m r w.server ((Reach-Inv h).main i r e)) in
      let (t, g, _) = Ends-some _ _ (disconnect-IsKept accepts r.id w.server) in
      let (u, k, _) = Ends-some _ _ (connect-IsEntered accepts id tx w.server) in
      ((s, f), (t, g), (u, k))
