-- ===== src/Stream.antt =====
-- src/stream.rs: streams that send their items to an actor and yield the results.
pub mod Skip
pub mod Flow
mod Checks
use actix_send.Prelude.{ℕ, Bool, true, false, List, [], ◌∷◌, Option, none, some}
use actix_send.Error.{Result, ok, err, ActixSendError, canceled, closed}
use actix_send.FutureHandle.{Poll, ready, pending}

-- `ActorStreamState`: a oneshot receiver is the number of its channel.
pub data ActorStreamState : Type 0 where
  next : ActorStreamState
  last : ℕ → ActorStreamState

-- What the rest of the world answers during one poll: the oneshot channel that would be made,
-- whether the actor's channel would take a message, and what polling a receiver gives, where `none`
-- is a dropped sender.
pub record Answers (Reply : Type 0) : Type 0 where
  pub fresh : ℕ
  pub took : Bool
  pub reply : ℕ → Poll (Option Reply)

-- The next answer of the inner stream and the answers that are left; a stream that has given all of
-- them is pending.
pub poll_source : {A : Type 0} → List (Poll (Option A)) → Poll (Option A) × List (Poll (Option A))
poll_source [] = (pending, [])
poll_source (x ∷ xs) = (x, xs)

module _ {Reply Output : Type 0} (map_result : Reply → Result Output) where
  -- `Ok(res) => M::map(res)`, `Err(_) => Err(Canceled)`
  pub result_of : Option Reply → Result Output
  result_of none = err canceled
  result_of (some res) = map_result res

  -- A receiver that is not ready is kept for the next poll.
  pub poll_receiver : ℕ → Poll (Option Reply) → Poll (Option (Result Output)) × ActorStreamState
  unfolding result_of
  poll_receiver rx (ready res) = (ready (some (result_of res)), next)
  poll_receiver rx pending = (pending, last rx)

  -- An item is sent with a fresh oneshot channel, whose receiver is polled at once.
  pub send_item : Answers Reply → Poll (Option (Result Output)) × ActorStreamState
  unfolding poll_receiver
  send_item a = elim (a.took) [
    | false ↦ (ready (some (err closed)), next)
    | true ↦ poll_receiver a.fresh (a.reply a.fresh)
  ]

  pub poll_item :
      {Item : Type 0}
      → Poll (Option Item)
      → Answers Reply
      → Poll (Option (Result Output)) × ActorStreamState
  unfolding send_item
  poll_item (ready (some item)) a = send_item a
  poll_item (ready none) a = (ready none, next)
  poll_item pending a = (pending, next)

  -- `ActorStream::poll_next`, with the answers of the inner stream before and after.
  pub poll_next :
      {Item : Type 0}
      → ActorStreamState × List (Poll (Option Item))
      → Answers Reply
      → Poll (Option (Result Output)) × ActorStreamState × List (Poll (Option Item))
  unfolding poll_item poll_source
  poll_next (next, source) a =
      let (polled, rest) = poll_source source in
      let (out, state) = poll_item polled a in (out, state, rest)
  poll_next (last rx, source) a =
      let (out, state) = poll_receiver rx (a.reply rx) in (out, state, source)

  -- The loop of `ActorSkipStream::poll_next`.
  skip_loop :
      {Item : Type 0}
      → List (Poll (Option (Option Item)))
      → Answers Reply
      → Poll (Option (Result Output)) × ActorStreamState × List (Poll (Option (Option Item)))
  unfolding send_item
  skip_loop [] a = (pending, next, [])
  skip_loop (pending ∷ source) a = (pending, next, source)
  skip_loop (ready none ∷ source) a = (ready none, next, source)
  skip_loop (ready (some none) ∷ source) a = skip_loop source a
  skip_loop (ready (some (some item)) ∷ source) a =
      let (out, state) = send_item a in (out, state, source)

  -- `ActorSkipStream::poll_next`; its `rx_one` is `Some(rx)` in state `last rx`.
  pub poll_skip :
      {Item : Type 0}
      → ActorStreamState × List (Poll (Option (Option Item)))
      → Answers Reply
      → Poll (Option (Result Output)) × ActorStreamState × List (Poll (Option (Option Item)))
  unfolding skip_loop
  poll_skip (last rx, source) a =
      let (out, state) = poll_receiver rx (a.reply rx) in (out, state, source)
  poll_skip (next, source) a = skip_loop source a

  -- What a stream yields over a sequence of polls.
  pub outputs :
      {Item : Type 0}
      → ActorStreamState × List (Poll (Option Item))
      → List (Answers Reply)
      → List (Poll (Option (Result Output)))
  outputs s [] = []
  outputs s (a ∷ later) =
      let (out, state, rest) = poll_next s a in out ∷ outputs (state, rest) later

  pub skip_outputs :
      {Item : Type 0}
      → ActorStreamState × List (Poll (Option (Option Item)))
      → List (Answers Reply)
      → List (Poll (Option (Result Output)))
  skip_outputs s [] = []
  skip_outputs s (a ∷ later) =
      let (out, state, rest) = poll_skip s a in out ∷ skip_outputs (state, rest) later
