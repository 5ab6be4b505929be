-- ===== src/Address/Send/Outcomes.antt =====
-- What the sending methods of src/address.rs answer.
use mathlib.Core.List.{Perm, filter_map}
use mathlib.Core.List.Perm
use actix_send.Prelude.{
  ℕ, ◌≡◌, refl, Bool, true, false, List, [], ◌∷◌, map, Option, none, some, ◌==◌, if◌then◌else◌,
  arith,
}
use actix_send.Error.{Result, ok, err, canceled, closed, timeout}
use actix_send.Message.{
  Program, FutureObject, handle_future, pack, unpack, InstantMessage, ContextMessage, instant,
}
use actix_send.Runtime.{Timed, elapsed, within, send_timeout}
use actix_send.Subscribe.{Subscriber, send_message}
use actix_send.Subscribe
use actix_send.Address.Send.{send, run, send_subscribe}

-- The answer of a request by what the channel and the actor did.
abbrev pub request_outcome : {A : Type 0} → Timed Bool → Option A → Result A
request_outcome elapsed rx = err timeout
request_outcome (within false) rx = err closed
request_outcome (within true) none = err canceled
request_outcome (within true) (some a) = ok a

abbrev pub then_map : {A B : Type 0} → Result A → (A → Result B) → Result B
then_map (ok a) f = f a
then_map (err e) f = err e

module _ {p : Program} {Output : Type 0} (answer : ℕ → ContextMessage p → Timed Bool) where
  -- A send answers `Timeout` if the time runs out, `Closed` if the channel is closed, `Canceled` if
  -- the actor drops the reply's sender, and else what the message makes of the reply.
  pub send_lem :
      (tx : ℕ) (msg : p.Message) (rx : Option p.Reply) (map_result : p.Reply → Result Output)
      → send answer tx msg rx map_result
        ≡ then_map
            (request_outcome (answer 0 (instant (InstantMessage.static (some tx) msg))) rx)
            map_result
  unfolding send send_timeout
  send_lem tx msg rx map_result = ground arith

module _ {p : Program} (answer : ℕ → ContextMessage p → Timed Bool) where
  -- A closure that the channel took and an actor ran answers the closure's own value: the type that
  -- `run` unpacks is the one that the actor packed, so `TypeCast` does not arise.
  pub run-handle_future :
      (tx : ℕ) (f : FutureObject p) (a : p.Actor)
      → answer 0 (instant (InstantMessage.dynamic (some tx) f)) ≡ within true
      → run answer tx f (some (handle_future p f a).0) ≡ ok (p.call f.func a).0
  unfolding run handle_future unpack send_timeout
  run-handle_future tx f a e = ground arith

-- The subscribers whose type is that of the message.
abbrev pub of_type : ℕ → List Subscriber → List Subscriber
of_type message [] = []
of_type message (s ∷ ss) =
    let rest = of_type message ss in if message == s.message then s ∷ rest else rest

module _ {V : Type 0} (live : ℕ → Bool) (answer : ℕ → V → Timed Bool) where
  filter_map-send :
      (subs : List Subscriber) (message : ℕ) (msg : V)
      → filter_map (λ s. s) (map (λ sub. Subscribe.send live answer sub (pack message msg)) subs)
        ≡ map (λ s. send_message live answer s msg) (of_type message subs)
  unfolding Subscribe.send unpack pack filter_map
  filter_map-send [] message msg = refl
  filter_map-send (s ∷ ss) message msg = ground (arith, filter_map-send ss message msg)

  -- `send_subscribe` answers once for each subscriber of the message's own type, in some order. The
  -- other subscribers give no answer at all, also no `TypeCast`.
  pub send_subscribe-perm :
      (subs : List Subscriber) (message : ℕ) (msg : V)
      (unordered : List (Option (Result (Unit {0}))) → List (Option (Result (Unit {0}))))
      → ((xs : List (Option (Result (Unit {0})))) → Perm (unordered xs) xs)
      → Perm
          (send_subscribe live answer (some subs) message msg unordered)
          (map (λ s. send_message live answer s msg) (of_type message subs))
  unfolding send_subscribe
  send_subscribe-perm subs message msg unordered fair =
      rw (← filter_map-send subs message msg) (Perm.filter_map _ (fair _))
