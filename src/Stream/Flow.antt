-- ===== src/Stream/Flow.antt =====
-- `ActorStream` of src/stream.rs over many polls: no item and no result is lost or made up.
use actix_send.Prelude.{ℕ, ◌+◌, ◌≡◌, refl, List, [], ◌∷◌, Option, none, some, arith}
use actix_send.Error.{Result}
use actix_send.FutureHandle.{Poll, ready, pending}
use actix_send.Stream.{
  ActorStreamState, next, last, Answers, poll_source, poll_receiver, poll_item, poll_next, outputs,
}

-- One request is in flight exactly while a receiver is kept.
abbrev pub in_flight : ActorStreamState → ℕ
in_flight next = 0
in_flight (last rx) = 1

abbrev pub is_item : {A : Type 0} → Poll (Option A) → ℕ
is_item (ready (some a)) = 1
is_item (ready none) = 0
is_item pending = 0

-- The items among the answers of an inner stream, or the results among the answers of an outer one.
abbrev pub items : {A : Type 0} → List (Poll (Option A)) → ℕ
items [] = 0
items (x ∷ xs) = is_item x + items xs

module _ {Reply Output : Type 0} (map_result : Reply → Result Output) where
  poll_receiver_flow :
      (rx : ℕ) (r : Poll (Option Reply))
      → let x = poll_receiver map_result rx r in is_item x.0 + in_flight x.1 ≡ 1
  unfolding poll_receiver
  poll_receiver_flow rx (ready r) = refl
  poll_receiver_flow rx pending = refl

module _ {Item Reply Output : Type 0} (map_result : Reply → Result Output) where
  -- Where the stream stands after a sequence of polls.
  pub after :
      ActorStreamState × List (Poll (Option Item))
      → List (Answers Reply)
      → ActorStreamState × List (Poll (Option Item))
  after s [] = s
  after s (a ∷ later) =
      let (out, state, rest) = poll_next map_result s a in after (state, rest) later

  poll_item_flow :
      (p : Poll (Option Item)) (a : Answers Reply)
      → let x = poll_item map_result p a in is_item x.0 + in_flight x.1 ≡ is_item p
  unfolding poll_item
  poll_item_flow (ready (some item)) a =
      ground (arith, poll_receiver_flow map_result a.fresh (a.reply a.fresh))
  poll_item_flow (ready none) a = refl
  poll_item_flow pending a = refl

  poll_next_flow :
      (state : ActorStreamState) (source : List (Poll (Option Item))) (a : Answers Reply)
      → let x = poll_next map_result (state, source) a in
        is_item x.0 + in_flight x.1 + items x.2 ≡ in_flight state + items source
  unfolding poll_next poll_source
  poll_next_flow next [] a = omega (arith, poll_item_flow pending a)
  poll_next_flow next (x ∷ xs) a = omega (arith, poll_item_flow x a)
  poll_next_flow (last rx) source a = omega (arith, poll_receiver_flow map_result rx (a.reply rx))

  -- Over any sequence of polls, every item taken from the inner stream gives exactly one result, and
  -- at most one request is in flight at a time.
  pub outputs-items :
      (state : ActorStreamState) (source : List (Poll (Option Item))) (later : List (Answers Reply))
      → items (outputs map_result (state, source) later)
          + in_flight (after (state, source) later).0
          + items (after (state, source) later).1
        ≡ in_flight state + items source
  unfolding outputs after
  outputs-items state source [] = omega arith
  outputs-items state source (a ∷ later) =
      let x = poll_next map_result (state, source) a in
      omega (arith, poll_next_flow state source a, outputs-items x.1 x.2 later)
