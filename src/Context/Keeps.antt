-- ===== src/Context/Keeps.antt =====
-- What handling a message leaves alone, on every branch of `handle_msg` of src/context.rs.
use actix_send.Prelude.{ℕ, ◌≡◌, Bool, List, Option, none, some, arith}
use actix_send.Message.{
  Program, InstantMessage, DelayedMessage, IntervalMessage, ContextMessage, manual_shut_down,
  instant, delayed, interval,
}
use actix_send.Shared.{Effect, Shared, FutureHandler}
use actix_send.Actor.{push_handler}
use actix_send.Context.{
  ActorContext, handle_delayed_msg, handle_instant_msg, handle_interval_msg, handle_msg, answer,
}

-- The count of active actors, the configuration and the channel of the set.
pub record SameSet {p : Program} (s t : Shared p) : Type 0 where
  pub active : t.active ≡ s.active
  pub config : t.config ≡ s.config

-- The identity of a context and its place in the loop.
pub record SameContext {p : Program} (c d : ActorContext p) : Type 0 where
  pub id : d.id ≡ c.id
  pub generation : d.generation ≡ c.generation
  pub phase : d.phase ≡ c.phase

module _ {p : Program} where
  push_handler-SameSet : (hs : List FutureHandler) (s : Shared p) → SameSet s (push_handler hs s)
  unfolding push_handler
  push_handler-SameSet hs s = ground arith

  delayed-SameSet : (m : DelayedMessage p) (s : Shared p) → SameSet s (handle_delayed_msg m s)
  unfolding handle_delayed_msg
  delayed-SameSet (DelayedMessage.static m d) s = ground arith
  delayed-SameSet (DelayedMessage.dynamic m d) s = ground arith

module _ {p : Program} (rx_alive : ℕ → Bool) where
  answer-SameSet :
      (tx : Option ℕ) (e : ℕ → Effect p) (s : Shared p) → SameSet s (answer rx_alive tx e s)
  unfolding answer
  answer-SameSet none e s = ground arith
  answer-SameSet (some tx) e s = ground arith

  pub instant-keeps :
      (m : InstantMessage p) (c : ActorContext p) (s : Shared p)
      → let r = handle_instant_msg rx_alive m c s in
        SameContext c r.0 × SameSet s r.1 × (r.0.manual_shutdown ≡ c.manual_shutdown)
  unfolding handle_instant_msg
  instant-keeps (InstantMessage.static none m) c s = ground arith
  instant-keeps (InstantMessage.static (some tx) m) c s = ground arith
  instant-keeps (InstantMessage.dynamic none m) c s = ground arith
  instant-keeps (InstantMessage.dynamic (some tx) m) c s = ground arith

  pub interval-keeps :
      (m : IntervalMessage p) (c : ActorContext p) (s : Shared p)
      → let r = handle_interval_msg rx_alive m c s in
        SameContext c r.1 × SameSet s r.2 × (r.1.manual_shutdown ≡ c.manual_shutdown)
  unfolding handle_interval_msg
  interval-keeps (IntervalMessage.run k) c s = ground arith
  interval-keeps (IntervalMessage.remove k) c s = ground arith
  interval-keeps (IntervalMessage.register tx f d) c s = ground arith

  pub handle_msg-keeps :
      (m : ContextMessage p) (c : ActorContext p) (s : Shared p)
      → let r = handle_msg rx_alive m c s in SameContext c r.1 × SameSet s r.2
  unfolding handle_msg
  handle_msg-keeps (instant m) c s = ground (arith, instant-keeps m c s)
  handle_msg-keeps (delayed m) c s = ground (arith, delayed-SameSet m s)
  handle_msg-keeps (interval m) c s = ground (arith, interval-keeps m c s)
  handle_msg-keeps (manual_shut_down tx) c s = ground arith
