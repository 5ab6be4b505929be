-- ===== src/Chat/Server/Tables.antt =====
-- What a lookup in the sessions and in the rooms finds after each change of them.
use actix_send.Prelude.{
  ℕ, ◌≤◌, ◌<◌, ◌≡◌, refl, Bool, true, false, not, ◌&&◌, ◌||◌, List, [], ◌∷◌, Option, none, some,
  length, ◌==◌, if◌then◌else◌, Bool-cases, inl, inr, All, All-weaken, arith,
}
use actix_send.Text.{Text, equal}
use actix_send.Text.Equal.{equal_lem}
use actix_send.Chat.Server.{
  find_session, remove_session, contains, remove, insert, find_room, insert_in, recipients, exit,
}

-- Whether an id is a member of a room.
unfoldable pub is_member : ℕ → Text → List (Text × List ℕ) → Bool
unfolding contains
is_member id name [] = false
is_member id name (r ∷ rooms) =
    let rest = is_member id name rooms in if equal r.0 name then contains id r.1 else rest

pub find_session-remove_session :
    (i j : ℕ) (ss : List (ℕ × ℕ))
    → find_session i (remove_session j ss) ≡ (if i == j then none else find_session i ss)
unfolding find_session remove_session
find_session-remove_session i j [] = ground arith
find_session-remove_session i j (s ∷ ss) = ground (arith, find_session-remove_session i j ss)

pub length-remove_session : (i : ℕ) (ss : List (ℕ × ℕ)) → length (remove_session i ss) ≤ length ss
unfolding remove_session
length-remove_session i [] = omega arith
length-remove_session i (s ∷ ss) = ground (arith, length-remove_session i ss)

pub length-remove_session_found :
    (i : ℕ) {tx : ℕ} (ss : List (ℕ × ℕ))
    → find_session i ss ≡ some tx
    → length (remove_session i ss) < length ss
unfolding find_session remove_session
length-remove_session_found i [] e = ground arith
length-remove_session_found i {tx} (s ∷ ss) e = elim (Bool-cases (s.0 == i)) [
  | inl h ↦ ground (arith, length-remove_session i ss)
  | inr h ↦ let rest = length-remove_session_found i {tx = tx} ss in ground (arith, rest)
]

pub contains-remove :
    (i j : ℕ) (ids : List ℕ) → contains i (remove j ids) ≡ (not (i == j) && contains i ids)
unfolding contains remove
contains-remove i j [] = ground arith
contains-remove i j (k ∷ ids) = ground (arith, contains-remove i j ids)

pub contains-insert :
    (i j : ℕ) (ids : List ℕ) → contains i (insert j ids) ≡ (i == j || contains i ids)
unfolding contains insert
contains-insert i j ids = ground arith

pub is_member-exit :
    (i j : ℕ) (name : Text) (rooms : List (Text × List ℕ))
    → is_member i name (exit j rooms) ≡ (not (i == j) && is_member i name rooms)
unfolding is_member exit
is_member-exit i j name [] = ground arith
is_member-exit i j name (r ∷ rooms) =
    ground (arith, is_member-exit i j name rooms, contains-remove i j r.1)

pub equal_self : (xs : Text) → equal xs xs ≡ true
unfolding equal
equal_self [] = refl
equal_self (x ∷ xs) = ground (arith, equal_self xs)

-- Two rooms of the same name as a third are no two rooms.
equal_join : (a b c : Text) → equal a c ≡ true → equal b c ≡ true → equal a b ≡ true
equal_join a b c p q = rw (equal_lem a c p, equal_lem b c q) (equal_self c)

pub is_member-insert_in :
    (i j : ℕ) (name room : Text) (rooms : List (Text × List ℕ))
    → is_member i name (insert_in j room rooms)
      ≡ (equal room name && i == j || is_member i name rooms)
unfolding is_member insert_in contains
is_member-insert_in i j name room [] = ground arith
is_member-insert_in i j name room (r ∷ rooms) = elim (Bool-cases (equal r.0 room)) [
  | inl e ↦ rw (equal_lem r.0 room e, equal_self room) (ground (arith, contains-insert i j r.1))
  | inr e ↦
      let rest = is_member-insert_in i j name room rooms in ground (arith, equal_join r.0 room name)
]

pub All-recipients :
    (P : ℕ → Type 0) (skip : ℕ) (ss : List (ℕ × ℕ)) (ids : List ℕ)
    → All P ids
    → All (λ r. (find_session r.0 ss ≡ some r.1) × P r.0) (recipients skip ss ids)
unfolding recipients
All-recipients P skip ss [] h = tt
All-recipients P skip ss (id ∷ ids) h =
    pick (id == skip) (find_session id ss) refl (All-recipients P skip ss ids h.1)
  where
    pick :
        (b : Bool) (found : Option ℕ)
        → find_session id ss ≡ found
        → All (λ r. (find_session r.0 ss ≡ some r.1) × P r.0) (recipients skip ss ids)
        → All
            (λ r. (find_session r.0 ss ≡ some r.1) × P r.0)
            (if b then recipients skip ss ids else elim found [
              | none ↦ recipients skip ss ids
              | some addr ↦ (id, addr) ∷ recipients skip ss ids
            ])
    pick true found e later = later
    pick false none e later = later
    pick false (some addr) e later = ((e, h.0), later)

pub is_member-find_room :
    (id : ℕ) (name : Text) (rooms : List (Text × List ℕ))
    → is_member id name rooms ≡ true
    → (ids : List ℕ) × (find_room name rooms ≡ some ids) × (contains id ids ≡ true)
unfolding is_member find_room
is_member-find_room id name [] h = ground arith
is_member-find_room id name (r ∷ rooms) h = elim (Bool-cases (equal r.0 name)) [
  | inl e ↦ (r.1, ground (arith, e), ground (arith, e, h))
  | inr e ↦
      let (ids, found, inside) = is_member-find_room id name rooms (ground (arith, e, h)) in
      (ids, ground (arith, e, found), inside)
]

All-within :
    (ids all : List ℕ)
    → ((i : ℕ) → contains i ids ≡ true → contains i all ≡ true)
    → All (λ i. contains i all ≡ true) ids
unfolding contains
All-within [] all sub = tt
All-within (i ∷ ids) all sub =
    (sub i (ground arith), All-within ids all (λ j h. sub j (ground (arith, h))))

contains-is_member :
    (id : ℕ) (name : Text) (rooms : List (Text × List ℕ)) {ids : List ℕ}
    → find_room name rooms ≡ some ids
    → contains id ids ≡ true
    → is_member id name rooms ≡ true
unfolding is_member find_room
contains-is_member id name [] e h = ground arith
contains-is_member id name (r ∷ rooms) {ids} e h =
    ground (arith, contains-is_member id name rooms {ids = ids})

pub All-is_member :
    (name : Text) (rooms : List (Text × List ℕ)) (ids : List ℕ)
    → find_room name rooms ≡ some ids
    → All (λ id. is_member id name rooms ≡ true) ids
All-is_member name rooms ids e =
    All-weaken _ _ (λ id. contains-is_member id name rooms e) ids (All-within ids ids (λ i h. h))
