-- ===== src/Chat/Server.antt =====
-- actix_send_websocket/examples/websocket-chat2/src/server.rs. A map is the list of its entries and a
pub mod Cascade
pub mod Ending
pub mod Members
pub mod Joining
pub mod Delivery
pub mod Equations
pub mod Tables
-- set that of its elements, in the order in which it is iterated.
use actix_send.Prelude.{
  ℕ, zero, suc, Bool, true, false, not, ◌&&◌, ◌||◌, List, [], ◌∷◌, Option, none, some, length, ◌==◌,
  if◌then◌else◌,
}
use actix_send.Text.{Text, codes, equal}
use actix_send.WebSocket.{Message}
use actix_send.WebSocket.Sender.{Sent, done, internal_server_error, send}

-- One call of `WebSocketSender::send` by the server: to which sender, the text, and whether the
-- channel took it.
pub record Attempt : Type 0 where
  pub to : ℕ
  pub text : Text
  pub taken : Bool

-- The server, with the sends that it has made, newest first.
pub record ChatServer : Type 0 where
  pub sessions : List (ℕ × ℕ)
  pub rooms : List (Text × List ℕ)
  pub attempts : List Attempt

abbrev pub main_room : Text
main_room = codes "Main"

-- `ChatServer::default`
abbrev pub default_server : ChatServer
default_server = record { sessions = []; rooms = (main_room, []) ∷ []; attempts = [] }

-- `HashMap` and `HashSet` of the standard library: `get`, `remove` and `contains`.
unfoldable pub find_session : ℕ → List (ℕ × ℕ) → Option ℕ
find_session id [] = none
find_session id (s ∷ sessions) =
    let rest = find_session id sessions in if s.0 == id then some s.1 else rest

unfoldable pub remove_session : ℕ → List (ℕ × ℕ) → List (ℕ × ℕ)
remove_session id [] = []
remove_session id (s ∷ sessions) =
    let rest = remove_session id sessions in if s.0 == id then rest else s ∷ rest

unfoldable pub contains : ℕ → List ℕ → Bool
contains id [] = false
contains id (i ∷ ids) = i == id || contains id ids

unfoldable pub remove : ℕ → List ℕ → List ℕ
remove id [] = []
remove id (i ∷ ids) = let rest = remove id ids in if i == id then rest else i ∷ rest

unfoldable pub insert : ℕ → List ℕ → List ℕ
unfolding contains
insert id ids = if contains id ids then ids else id ∷ ids

unfoldable pub find_room : Text → List (Text × List ℕ) → Option (List ℕ)
find_room name [] = none
find_room name (r ∷ rooms) =
    let rest = find_room name rooms in if equal r.0 name then some r.1 else rest

-- `entry(name).or_insert_with(HashSet::new).insert(id)`
unfoldable pub insert_in : ℕ → Text → List (Text × List ℕ) → List (Text × List ℕ)
unfolding insert
insert_in id name [] = (name, id ∷ []) ∷ []
insert_in id name (r ∷ rooms) =
    let rest = insert_in id name rooms in
    if equal r.0 name then (r.0, insert id r.1) ∷ rooms else r ∷ rest

-- The members to whom `send_message` sends, with their senders.
unfoldable pub recipients : ℕ → List (ℕ × ℕ) → List ℕ → List (ℕ × ℕ)
unfolding find_session
recipients skip_id sessions [] = []
recipients skip_id sessions (id ∷ ids) =
    let rest = recipients skip_id sessions ids in
    if id == skip_id
    then rest
    else elim (find_session id sessions) [ none ↦ rest | some addr ↦ (id, addr) ∷ rest ]

unfoldable pub is_done : Sent → Bool
is_done done = true
is_done internal_server_error = false

-- What `exit_rooms` leaves of the rooms, and the names that it collects.
unfoldable pub exit : ℕ → List (Text × List ℕ) → List (Text × List ℕ)
unfolding remove
exit id [] = []
exit id (r ∷ rooms) = (r.0, remove id r.1) ∷ exit id rooms

unfoldable pub exited : ℕ → List (Text × List ℕ) → List Text
unfolding contains
exited id [] = []
exited id (r ∷ rooms) = let rest = exited id rooms in if contains id r.1 then r.0 ∷ rest else rest

unfoldable pub join_room : ℕ → Text → ChatServer → ChatServer
unfolding insert_in
join_room id name s = record s { rooms = insert_in id name s.rooms }

-- What follows if the fuel was enough.
unfoldable pub and_then : Option ChatServer → (ChatServer → Option ChatServer) → Option ChatServer
and_then none f = none
and_then (some s) f = f s

-- `for_each`
unfoldable pub for_each {ℓ} :
    {A : Type ℓ} → (A → ChatServer → Option ChatServer) → List A → ChatServer → Option ChatServer
unfolding and_then
for_each f [] s = some s
for_each f (x ∷ xs) s = and_then (f x s) (for_each f xs)

-- Every disconnect that goes on removes a session, so the sessions bound the depth.
unfoldable pub fuel : ChatServer → ℕ
fuel s = suc (length s.sessions)

-- `accepts k tx m`: the server's `k`-th send, of `m` to the sender `tx`, finds the receiver alive.
module _ (accepts : ℕ → ℕ → Message → Bool) where
  -- The sends to the recipients one after the other, and the ids of those that failed.
  unfoldable pub send_all : Text → List (ℕ × ℕ) → List Attempt → List Attempt × List ℕ
  unfolding is_done
  send_all msg [] attempts = (attempts, [])
  send_all msg ((id, addr) ∷ rest) attempts =
      let taken = is_done (send (accepts (length attempts) addr) (Message.text msg)) in
      let later = send_all msg rest (record { to = addr; text = msg; taken = taken } ∷ attempts) in
      (later.0, if taken then later.1 else id ∷ later.1)

  -- `send_message` up to the disconnects, by what the lookup of the room finds.
  unfoldable pub notify_members : Text → ℕ → ChatServer → Option (List ℕ) → ChatServer × List ℕ
  unfolding send_all recipients
  notify_members message skip_id s none = (s, [])
  notify_members message skip_id s (some ids) =
      let round = send_all message (recipients skip_id s.sessions ids) s.attempts in
      (record s { attempts = round.0 }, round.1)

  unfoldable pub notify : Text → Text → ℕ → ChatServer → ChatServer × List ℕ
  unfolding notify_members find_room
  notify room message skip_id s = notify_members message skip_id s (find_room room s.rooms)

  -- `send_message`, `exit_rooms` and `disconnect` call one another: each with what its inner
  -- `disconnect` does.
  module _ (inner : ℕ → ChatServer → Option ChatServer) where
    unfoldable pub send_message_by : Text → Text → ℕ → ChatServer → Option ChatServer
    unfolding notify for_each
    send_message_by room message skip_id s =
        let told = notify room message skip_id s in for_each inner told.1 told.0

    unfoldable pub exit_rooms_by : ℕ → ChatServer → Option ChatServer
    unfolding send_message_by exit exited
    exit_rooms_by id s =
        for_each (λ room. send_message_by room (codes "Someone disconnected") 0) (exited id s.rooms)
          (record s { rooms = exit id s.rooms })

    -- By what `sessions.remove` finds.
    unfoldable pub disconnect_found : ℕ → ChatServer → Option ℕ → Option ChatServer
    unfolding exit_rooms_by remove_session
    disconnect_found id s none = some s
    disconnect_found id s (some tx) =
        exit_rooms_by id (record s { sessions = remove_session id s.sessions })

    unfoldable pub disconnect_by : ℕ → ChatServer → Option ChatServer
    unfolding disconnect_found find_session
    disconnect_by id s = disconnect_found id s (find_session id s.sessions)

  -- With at most `fuel` disconnects inside one another.
  unfoldable pub disconnect_in : ℕ → ℕ → ChatServer → Option ChatServer
  unfolding disconnect_by
  disconnect_in zero id s = none
  disconnect_in (suc fuel) id s = disconnect_by (disconnect_in fuel) id s

  unfoldable pub disconnect : ℕ → ChatServer → Option ChatServer
  unfolding disconnect_in fuel
  disconnect id s = disconnect_in (fuel s) id s

  unfoldable pub send_message : Text → Text → ℕ → ChatServer → Option ChatServer
  unfolding disconnect_in fuel send_message_by
  send_message room message skip_id s =
      send_message_by (disconnect_in (fuel s)) room message skip_id s

  unfoldable pub exit_rooms : ℕ → ChatServer → Option ChatServer
  unfolding disconnect_in fuel exit_rooms_by
  exit_rooms id s = exit_rooms_by (disconnect_in (fuel s)) id s

  unfoldable pub connect : ℕ → ℕ → ChatServer → Option ChatServer
  unfolding send_message join_room and_then remove_session
  connect id tx s = and_then (send_message main_room (codes "Someone joined") 0 s) (λ t.
      some
        (join_room id main_room (record t { sessions = (id, tx) ∷ remove_session id t.sessions })))

  unfoldable pub join : ℕ → Text → ChatServer → Option ChatServer
  unfolding exit_rooms send_message join_room and_then
  join id name s =
      and_then (exit_rooms id s)
        (λ t. send_message name (codes "Someone connected") id (join_room id name t))

unfoldable pub room_names : List (Text × List ℕ) → List Text
room_names [] = []
room_names (r ∷ rooms) = r.0 ∷ room_names rooms

unfoldable pub list_rooms : ChatServer → List Text
unfolding room_names
list_rooms s = room_names s.rooms
