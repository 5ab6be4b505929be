-- ===== src/Context.antt =====
-- src/context.rs: how one actor context handles a message, and the loop that feeds it.
pub mod Keeps
pub mod Lifecycle
pub mod Fleet
pub mod Tasks
pub mod Intervals
pub mod Serving
pub mod Isolation
pub mod Closing
mod Checks
mod UnitTest
use actix_send.Prelude.{
  ℕ, zero, suc, ◌+◌, ◌-◌, Bool, true, false, not, ◌&&◌, List, [], ◌∷◌, Option, none, some, ltb,
  ◌==◌, if◌then◌else◌,
}
use actix_send.Builder.{Duration, Config}
use actix_send.Message.{
  Program, FutureObject, handle_future, InstantMessage, DelayedMessage, IntervalMessage,
  ContextMessage, manual_shut_down, instant, delayed, interval, ActorContextState,
}
use actix_send.Shared.{
  FutureHandler, Task, Effect, replied, replied_any, replied_state, replied_handler, Shared,
  wrapping_add,
}
use actix_send.FutureHandle.{upgrade, spawn, new_cell, attach_tx}
use actix_send.Interval.{get, put, insert, remove_key}
use actix_send.Actor.{inc_active, dec_active, push_handler}

-- Where a context receives from: the set's channel, or that and its own broadcast channel.
pub data Inbox : Type 0 where
  rx : Inbox
  selector : ℕ → Inbox

-- What `handle_msg` tells the loop: go on, break, or unwind by a panic.
pub data Control : Type 0 where
  proceed break panic : Control

-- Where the spawned task of a context stands.
pub data Phase : Type 0 where
  fresh receiving stopped panicked : Phase

-- What the task waits for: nothing yet (it starts), a message, or the end of the channel.
pub data Event (p : Program) : Type 0 where
  begin : Event p
  got : ContextMessage p → Event p
  closed : Event p

pub record ActorContext (p : Program) : Type 0 where
  pub id : ℕ
  pub generation : ℕ
  pub inbox : Inbox
  pub manual_shutdown : Bool
  pub actor : p.Actor
  pub phase : Phase

module _ {p : Program} where
  -- `ActorContext::new`
  unfoldable pub new_context : ℕ → Option ℕ → p.Actor → ActorContext p
  new_context id broadcast actor = record {
    id = id;
    generation = 0;
    inbox = elim broadcast [ some b ↦ selector b | none ↦ rx ];
    manual_shutdown = false;
    actor = actor;
    phase = fresh;
  }

  -- `fn state`
  pub state : ActorContext p → ActorContextState
  state c = record { id = c.id; generation = c.generation }

  -- `handle_delayed_msg`: the message that the task will send.
  pub as_instant : DelayedMessage p → ContextMessage p × Duration
  as_instant (DelayedMessage.static m dur) = (instant (InstantMessage.static none m), dur)
  as_instant (DelayedMessage.dynamic f dur) = (instant (InstantMessage.dynamic none f), dur)

  pub handle_delayed_msg : DelayedMessage p → Shared p → Shared p
  unfolding as_instant upgrade new_cell spawn push_handler
  handle_delayed_msg m s = elim (upgrade s) [
    | none ↦ s
    | some s1 ↦
        let (msg, dur) = as_instant m in
        let (cell, s2) = new_cell s1 in
        push_handler (record { cell = cell; tx = none } ∷ []) (spawn (Task.delayed cell msg dur) s2)
  ]

-- `rx_alive tx` says whether the receiver of oneshot channel `tx` still waits: a send succeeds
-- exactly then.
module _ {p : Program} (rx_alive : ℕ → Bool) where
  open p use {Actor, Reply, handle, on_start, on_stop}

  answer : Option ℕ → (ℕ → Effect p) → Shared p → Shared p
  answer none e s = s
  answer (some tx) e s = if rx_alive tx then record s { log = e tx ∷ s.log } else s

  pub handle_instant_msg : InstantMessage p → ActorContext p → Shared p → ActorContext p × Shared p
  unfolding answer handle_future
  handle_instant_msg (InstantMessage.static tx msg) c s =
      let (res, actor) = handle msg c.actor in
      (record c { actor = actor }, answer tx (λ t. replied t res) s)
  handle_instant_msg (InstantMessage.dynamic tx fut) c s =
      let (res, fut', actor) = handle_future p fut c.actor in
      (record c { actor = actor }, answer tx (λ t. replied_any t res) s)

  pub handle_interval_msg :
      IntervalMessage p → ActorContext p → Shared p → Control × ActorContext p × Shared p
  unfolding answer handle_future insert remove_key new_cell attach_tx spawn push_handler
  handle_interval_msg (IntervalMessage.run idx) c s = elim (get idx s.futures) [
    | none ↦ (proceed, c, s)
    | some fut ↦
        let (res, fut', actor) = handle_future p fut c.actor in
        (proceed, record c { actor = actor }, record s { futures = put idx fut' s.futures })
  ]
  handle_interval_msg (IntervalMessage.remove idx) c s = (proceed, c, remove_key idx s)
  handle_interval_msg (IntervalMessage.register tx fut dur) c s =
      let (key, s1) = insert fut s in
      elim key [
        | none ↦ (panic, c, s1)
        | some index ↦
            let (cell, s2) = new_cell s1 in
            let handler = attach_tx index (record { cell = cell; tx = none }) in
            let s3 = spawn (Task.interval_loop cell index dur) s2 in
            let s4 = push_handler (handler ∷ []) s3 in
            (proceed, c, answer (some tx) (λ t. replied_handler t handler) s4)
      ]

  pub handle_msg :
      ContextMessage p → ActorContext p → Shared p → Control × ActorContext p × Shared p
  unfolding handle_instant_msg handle_delayed_msg handle_interval_msg answer state
  handle_msg (instant m) c s = let (c', s') = handle_instant_msg m c s in (proceed, c', s')
  handle_msg (delayed m) c s = (proceed, c, handle_delayed_msg m s)
  handle_msg (interval m) c s = handle_interval_msg m c s
  handle_msg (manual_shut_down tx) c s =
      if rx_alive tx
      then (
        break,
        record c { manual_shutdown = true },
        answer (some tx) (λ t. replied_state t (state c)) s,
      )
      else (proceed, c, s)

  -- `spawn_loop` up to its first receive.
  pub start : ActorContext p → Shared p → ActorContext p × Shared p
  unfolding inc_active
  start c s = (record c { actor = on_start c.actor; phase = receiving }, (inc_active s).1)

  -- `spawn_loop` behind its receiving loop.
  pub finish : ActorContext p → Shared p → ActorContext p × Shared p
  unfolding dec_active
  finish c s =
      let (done, s') = dec_active s in
      if done && s.config.restart_on_err && not c.manual_shutdown
      then (record c { generation = wrapping_add c.generation 1; phase = fresh }, s')
      else (record c { actor = on_stop c.actor; phase = stopped }, s')

  -- The loop's body: handle, then break or receive again.
  after_msg : Control × ActorContext p × Shared p → ActorContext p × Shared p
  unfolding finish
  after_msg (proceed, c, s) = (c, s)
  after_msg (break, c, s) = finish c s
  after_msg (panic, c, s) = (record c { phase = panicked }, s)

  dispatch : Phase → Event p → ActorContext p → Shared p → ActorContext p × Shared p
  unfolding after_msg handle_msg start
  dispatch fresh begin c s = start c s
  dispatch receiving (got m) c s = after_msg (handle_msg m c s)
  dispatch receiving closed c s = finish c s
  dispatch _ _ c s = (c, s)

  -- One step of the task of `spawn_loop`; an event that it does not wait for changes nothing.
  pub turn : Event p → ActorContext p → Shared p → ActorContext p × Shared p
  unfolding dispatch
  turn e c s = dispatch c.phase e c s
