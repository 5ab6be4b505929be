-- ===== src/Context/Serving.antt =====
-- A context of src/context.rs that takes messages with and without a channel for the answer, one after
-- the other.
use actix_send.Prelude.{
  ℕ, ◌≡◌, refl, ap, ◌∙◌, Bool, true, false, List, [], ◌∷◌, ◌++◌, Option, none, some, All, ◌==◌,
  if◌then◌else◌, arith,
}
use actix_send.Message.{Program, InstantMessage, ContextMessage, instant}
use actix_send.Shared.{Effect, replied, Shared}
use actix_send.Context.{
  ActorContext, receiving, got, turn, dispatch, after_msg, handle_msg, handle_instant_msg, answer,
}

-- A message with the oneshot channel for its answer: `send` has one, `do_send` has none.
abbrev pub Sent : Program → Type 0
Sent p = Option ℕ × p.Message

abbrev pub message_of : (p : Program) → Sent p → ContextMessage p
message_of p (tx, msg) = instant (InstantMessage.static tx msg)

-- The actor on its own, as a machine that takes the messages in the same order.
abbrev pub actor_after : (p : Program) → List (Sent p) → p.Actor → p.Actor
actor_after p [] a = a
actor_after p (m ∷ ms) a = actor_after p ms (p.handle m.1 a).1

-- What the receiver of a oneshot channel gets: the newest answer through it.
abbrev pub reply_to : (p : Program) → ℕ → List (Effect p) → Option p.Reply
reply_to p tx [] = none
reply_to p tx (replied t r ∷ log) = let rest = reply_to p tx log in if t == tx then some r else rest
reply_to p tx (_ ∷ log) = reply_to p tx log

abbrev pub is_to : ℕ → Option ℕ → Bool
is_to tx none = false
is_to tx (some t) = t == tx

module _ {p : Program} (rx_alive : ℕ → Bool) where
  open p use {Actor, Message, Reply, handle}

  -- The context takes the messages one after the other.
  abbrev pub serve : List (Sent p) → ActorContext p → Shared p → ActorContext p × Shared p
  serve [] c s = (c, s)
  serve (m ∷ ms) c s = let (c', s') = turn rx_alive (got (message_of p m)) c s in serve ms c' s'

  abbrev pub answers : Option ℕ → Reply → List (Effect p) → List (Effect p)
  answers none r log = log
  answers (some tx) r log = if rx_alive tx then replied tx r ∷ log else log

  abbrev pub log_after : List (Sent p) → Actor → List (Effect p) → List (Effect p)
  log_after [] a log = log
  log_after (m ∷ ms) a log = log_after ms (handle m.1 a).1 (answers m.0 (handle m.1 a).0 log)

  answer_lem :
      (tx : Option ℕ) (r : Reply) (s : Shared p)
      → answer rx_alive tx (λ t. replied t r) s ≡ record s { log = answers tx r s.log }
  unfolding answer
  answer_lem none r s = refl
  answer_lem (some tx) r s = ground arith

  pub turn_lem :
      (m : Sent p) (c : ActorContext p) (s : Shared p)
      → c.phase ≡ receiving
      → turn rx_alive (got (message_of p m)) c s ≡ (
        record c { actor = (handle m.1 c.actor).1 },
        record s { log = answers m.0 (handle m.1 c.actor).0 s.log },
      )
  unfolding turn dispatch after_msg handle_msg handle_instant_msg
  turn_lem m c s r = rw r (
      ap (λ s'. (record c { actor = (handle m.1 c.actor).1; phase = receiving }, s'))
        (answer_lem m.0 (handle m.1 c.actor).0 s))

  pub serve_lem :
      (ms : List (Sent p)) (c : ActorContext p) (s : Shared p)
      → c.phase ≡ receiving
      → serve ms c s ≡ (
        record c { actor = actor_after p ms c.actor },
        record s { log = log_after ms c.actor s.log },
      )
  serve_lem [] c s r = refl
  serve_lem (m ∷ ms) c s r =
      ap (λ cs. serve ms cs.0 cs.1) (turn_lem m c s r)
      ∙ serve_lem ms (record c { actor = (handle m.1 c.actor).1 })
          (record s { log = answers m.0 (handle m.1 c.actor).0 s.log }) r

  reply_to-answers :
      (tx : ℕ) (to : Option ℕ) (r : Reply) (log : List (Effect p))
      → is_to tx to ≡ false
      → reply_to p tx (answers to r log) ≡ reply_to p tx log
  reply_to-answers tx none r log other = refl
  reply_to-answers tx (some t) r log other = ground (arith, other)

  -- Later answers do not come through the channel.
  reply_to-log_after :
      (tx : ℕ) (ms : List (Sent p)) (a : Actor) (log : List (Effect p))
      → All (λ m. is_to tx m.0 ≡ false) ms
      → reply_to p tx (log_after ms a log) ≡ reply_to p tx log
  reply_to-log_after tx [] a log other = refl
  reply_to-log_after tx (m ∷ ms) a log other =
      reply_to-log_after tx ms (handle m.1 a).1 (answers m.0 (handle m.1 a).0 log) other.1
      ∙ reply_to-answers tx m.0 (handle m.1 a).0 log other.0

  pub reply_to_lem :
      (tx : ℕ) (msg : Message) (before after : List (Sent p)) (a : Actor) (log : List (Effect p))
      → rx_alive tx ≡ true
      → All (λ m. is_to tx m.0 ≡ false) after
      → reply_to p tx (log_after (before ++ (some tx, msg) ∷ after) a log)
        ≡ some (handle msg (actor_after p before a)).0
  reply_to_lem tx msg [] after a log alive other =
      reply_to-log_after tx after (handle msg a).1 (answers (some tx) (handle msg a).0 log) other
      ∙ ground (arith, alive)
  reply_to_lem tx msg (m ∷ before) after a log alive other =
      reply_to_lem tx msg before after (handle m.1 a).1 (answers m.0 (handle m.1 a).0 log) alive
        other
