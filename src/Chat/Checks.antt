-- ===== src/Chat/Checks.antt =====
-- Instances of the theorems on the chat server, and its operations run on small states.
use actix_send.Prelude.{
  ℕ, ◌≡◌, refl, Bool, true, false, [], ◌∷◌, none, some, ◌==◌, if◌then◌else◌, update, arith,
}
use actix_send.Text.{Text, codes, equal, is_prefix, trim}
use actix_send.WebSocket.{Message, empty_queue}
use actix_send.WebSocket.Sender.{send}
use actix_send.Chat.Server.{
  Attempt, ChatServer, main_room, find_session, send_message, disconnect, join, list_rooms,
}
use actix_send.Chat.Server.Tables.{is_member}
use actix_send.Chat.Server.Ending.{Ends}
use actix_send.Chat.Server.Delivery.{IsServed, send_message-received}
use actix_send.Chat.Server.Members.{IsTidy, IsGone, disconnect-IsGone}
use actix_send.Chat.Server.Joining.{join_ghost}
use actix_send.Chat.Session.{WsChatSession, nop, framed, new_session, on_message, drop_session}
use actix_send.Chat.World.{World, idle, live, enter, Reach, start, next}
use actix_send.Chat.World.Reached.{Runs, Reach-Runs, Reach-list_rooms, Reach-ends}

-- Receiver 30 is gone, the others are alive.
abbrev but_30 : ℕ → ℕ → Message → Bool
but_30 k tx m = if tx == 30 then false else true

-- Three sessions in the main room, the last of them with a receiver that is gone.
abbrev crowd : ChatServer
crowd = record {
  sessions = (1, 10) ∷ (2, 20) ∷ (3, 30) ∷ [];
  rooms = (main_room, 1 ∷ 2 ∷ 3 ∷ []) ∷ [];
  attempts = [];
}

-- The session of route 0.
abbrev alice : WsChatSession
alice = record {
  id = 1;
  room = main_room;
  name = none;
  stream = record { queue = []; waker = none; woken = [] };
  looping = true;
}

abbrev told : ℕ → Text → Bool → Attempt
told tx msg taken = record { to = tx; text = msg; taken = taken }

-- A send by session 1: session 3 is dropped, and the others are told so.
crowd_after :
    send_message but_30 main_room (codes "hi") 1 crowd
    ≡ some (record {
      sessions = (1, 10) ∷ (2, 20) ∷ [];
      rooms = (main_room, 1 ∷ 2 ∷ []) ∷ [];
      attempts =
          told 20 (codes "Someone disconnected") true
          ∷ told 10 (codes "Someone disconnected") true
          ∷ told 30 (codes "hi") false
          ∷ told 20 (codes "hi") true
          ∷ [];
    })
unfolding send_message equal send
crowd_after = refl

-- A join by an id without a session: it stands in the room without a session.
ghost_after :
    join but_30 9 (codes "den") crowd
    ≡ some (record crowd { rooms = (main_room, 1 ∷ 2 ∷ 3 ∷ []) ∷ (codes "den", 9 ∷ []) ∷ [] })
unfolding join equal
ghost_after = refl

-- `/join den` of the client of session 1 lets it join the main room again, and makes no room.
join_after :
    Ends
      (λ t. list_rooms t ≡ main_room ∷ [])
      (on_message but_30 (framed (Message.text (codes "/join den"))) alice crowd).1
unfolding on_message list_rooms is_prefix trim equal send
join_after = refl

crowd-IsTidy : IsTidy crowd
unfolding find_session is_member
crowd-IsTidy id room e = ground (arith, e)

crowd_2 : (is_member 2 main_room crowd.rooms ≡ true) × (find_session 2 crowd.sessions ≡ some 20)
unfolding is_member find_session equal
crowd_2 = (refl, refl)

send_message-received_example :
    Ends (IsServed (codes "hi") 2 20) (send_message but_30 main_room (codes "hi") 1 crowd)
send_message-received_example =
    send_message-received but_30 main_room (codes "hi") 1 2 crowd crowd_2.0 refl crowd_2.1

disconnect-IsGone_example : Ends (IsGone but_30 2) (disconnect but_30 2 crowd)
disconnect-IsGone_example = disconnect-IsGone but_30 2 crowd crowd-IsTidy

no_9 : find_session 9 crowd.sessions ≡ none
unfolding find_session
no_9 = refl

join_ghost_example :
    Ends
      (λ t.
        (is_member 9 (codes "den") t.rooms ≡ true)
        × (find_session 9 t.sessions ≡ none)
        × (disconnect but_30 9 t ≡ some t))
      (join but_30 9 (codes "den") crowd)
join_ghost_example = join_ghost but_30 9 (codes "den") crowd no_9

-- The first route opens with id 1 and sender 10.
abbrev opened : World
opened = record {
  server = record { sessions = (1, 10) ∷ []; rooms = (main_room, 1 ∷ []) ∷ []; attempts = [] };
  routes = update (λ _. idle) 0 (live alice);
}

opened-Reach : Reach but_30 opened
unfolding new_session equal
opened-Reach = next start (enter 0 1 10 {s = opened.server} refl refl)

opened_1 : find_session 1 opened.server.sessions ≡ some 10
unfolding find_session
opened_1 = refl

Reach-Runs_example : Runs opened 1
Reach-Runs_example = Reach-Runs but_30 opened-Reach 1 opened_1

Reach-list_rooms_example : list_rooms opened.server ≡ main_room ∷ []
Reach-list_rooms_example = Reach-list_rooms but_30 opened-Reach

Reach-ends_example :
    ((s : ChatServer) × ((on_message but_30 nop alice opened.server).1 ≡ some s))
    × ((s : ChatServer) × (drop_session but_30 alice opened.server ≡ some s))
    × ((s : ChatServer) × ((new_session but_30 2 30 empty_queue opened.server).1 ≡ some s))
Reach-ends_example = Reach-ends but_30 opened-Reach 0 alice refl nop 2 30
