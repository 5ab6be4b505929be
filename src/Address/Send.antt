-- ===== src/Address/Send.antt =====
-- The sending methods of src/address.rs. What the channel, the clock and the actor answer is given
-- by parameters.
pub mod Outcomes
pub mod Served
use actix_send.Prelude.{
  ℕ, Bool, true, false, List, [], ◌∷◌, map, Option, none, some, ◌==◌, if◌then◌else◌,
}
use mathlib.Core.List.{filter_map}
use actix_send.Builder.{Duration}
use actix_send.Error.{
  Result, ok, err, ActixSendError, canceled, type_cast, subscribe, broadcast, ◌>>=◌, ◌>>◌, or_fail,
}
use actix_send.Message.{
  Program, AnyObjectContainer, pack, unpack, FutureObject, InstantMessage, DelayedMessage,
  IntervalMessage, ContextMessage, manual_shut_down, instant, delayed, interval, ActorContextState,
}
use actix_send.Shared.{FutureHandler, Task, sent}
use actix_send.FutureHandle.{spawn}
use actix_send.Address.{Group, hold, release}
use actix_send.Runtime.{Timed, send_timeout}
use actix_send.Subscribe.{Subscriber, push}
use actix_send.Subscribe

-- `answer c m`: what became of the timed send of `m` on channel `c`, where channel 0 is the set's
-- and the others are the actors' broadcast channels.
module _ {p : Program} {Output : Type 0} (answer : ℕ → ContextMessage p → Timed Bool) where
  -- `Address::send`. `rx` is what the oneshot receiver gets, `none` if its sender is dropped;
  -- `map_result` is the message's `MapResult::map`.
  pub send : ℕ → p.Message → Option p.Reply → (p.Reply → Result Output) → Result Output
  send tx msg rx map_result = do
    send_timeout (answer 0 (instant (InstantMessage.static (some tx) msg)))
    res ← or_fail rx canceled
    map_result res

  -- One future of `Address::broadcast`.
  send_to : ℕ → ℕ → p.Message → Option p.Reply → (p.Reply → Result Output) → Result Output
  send_to channel tx msg rx map_result = do
    send_timeout (answer channel (instant (InstantMessage.static (some tx) msg)))
    res ← or_fail rx canceled
    map_result res

  -- `Address::broadcast`: `tx_subs` are the broadcast channels, `rx c` is what the receiver of the
  -- reply on channel `c` gets, and `unordered` the order in which the futures finish.
  pub broadcast_message :
      Option (List ℕ)
      → p.Message
      → (ℕ → Option p.Reply)
      → (p.Reply → Result Output)
      → (List (Result Output) → List (Result Output))
      → List (Result Output)
  unfolding send_to
  broadcast_message none msg rx map_result unordered = err broadcast ∷ []
  broadcast_message (some group) msg rx map_result unordered =
      unordered (map (λ c. send_to c c msg (rx c) map_result) group)

module _ {p : Program} (answer : ℕ → ContextMessage p → Timed Bool) where
  -- `Address::send_later`
  pub send_later : p.Message → Duration → Result (Unit {0})
  send_later msg delay = send_timeout (answer 0 (delayed (DelayedMessage.static msg delay)))

  -- `Address::run_later`
  pub run_later : FutureObject p → Duration → Result (Unit {0})
  run_later f delay = send_timeout (answer 0 (delayed (DelayedMessage.dynamic f delay)))

  -- `Address::close_one`
  pub close_one : ℕ → Option ActorContextState → Result ActorContextState
  close_one tx rx = send_timeout (answer 0 (manual_shut_down tx)) >> or_fail rx canceled

  -- `Address::run_interval`
  pub run_interval : ℕ → FutureObject p → Duration → Option FutureHandler → Result FutureHandler
  run_interval tx f dur rx =
      send_timeout (answer 0 (interval (IntervalMessage.register tx f dur))) >> or_fail rx canceled

  -- `Address::run`: the answer is taken out of its box at the closure's output type.
  pub run : ℕ → FutureObject p → Option (AnyObjectContainer p.Value) → Result p.Value
  run tx f rx = do
    send_timeout (answer 0 (instant (InstantMessage.dynamic (some tx) f)))
    any ← or_fail rx canceled
    or_fail (unpack f.output any).0 type_cast

module _ {p : Program} where
  -- `Address::do_send` and `Address::do_run`: the task that they spawn owns a sender.
  pub do_send : p.Message → Group p → Group p
  do_send msg g =
      let held = hold g in
      record held {
        shared = spawn (Task.deliver (instant (InstantMessage.static none msg))) held.shared;
      }

  pub do_run : FutureObject p → Group p → Group p
  do_run f g =
      let held = hold g in
      record held {
        shared = spawn (Task.deliver (instant (InstantMessage.dynamic none f))) held.shared;
      }

  -- Their task, when the channel took the message or refused it: the answer is ignored.
  pub deliver_task : Bool → ContextMessage p → Group p → Group p
  deliver_task took msg g = release (
      if took then record g { shared = record (g.shared) { log = sent msg ∷ g.shared.log } } else g)

-- `Address::subscribe_with`: the subscriber list afterwards, and the answer.
pub subscribe_with : Option (List Subscriber) → ℕ → ℕ → Option (List Subscriber) × Result (Unit {0})
subscribe_with none message channel = (none, err subscribe)
subscribe_with (some subs) message channel = (some (push message channel subs), ok tt)

-- `Address::send_subscribe` of a message of type `message`.
pub send_subscribe :
    {V : Type 0}
    → (ℕ → Bool)
    → (ℕ → V → Timed Bool)
    → Option (List Subscriber)
    → ℕ
    → V
    → (List (Option (Result (Unit {0}))) → List (Option (Result (Unit {0}))))
    → List (Result (Unit {0}))
send_subscribe live answer none message msg unordered = err subscribe ∷ []
send_subscribe live answer (some subs) message msg unordered =
    filter_map (λ s. s)
      (unordered (map (λ sub. Subscribe.send live answer sub (pack message msg)) subs))
