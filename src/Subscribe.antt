-- ===== src/Subscribe.antt =====
-- src/subscribe.rs: subscribers of other sets of actors, behind trait objects.
use actix_send.Prelude.{ℕ, Bool, List, [], ◌∷◌, ◌++◌, Option, none, some, if◌then◌else◌}
use actix_send.Error.{Result, err, closed}
use actix_send.Message.{AnyObjectContainer, unpack}
use actix_send.Runtime.{Timed, send_timeout}

-- A boxed `Subscriber<A, M>`: the `TypeId` of `M` and the weak sender to `A`, by its channel.
pub record Subscriber : Type 0 where
  pub message : ℕ
  pub channel : ℕ

-- `live c`: a strong sender of channel `c` is left. `answer c m`: what became of the timed send of
-- message `m` on channel `c`.
module _ {V : Type 0} (live : ℕ → Bool) (answer : ℕ → V → Timed Bool) where
  -- `Subscriber::_send`
  unfoldable pub send_message : Subscriber → V → Result (Unit {0})
  send_message sub msg =
      if live sub.channel then send_timeout (answer sub.channel msg) else err closed

  -- `SubscribeTrait::send`: `none` where the message is not of the subscriber's type.
  unfoldable pub send : Subscriber → AnyObjectContainer V → Option (Result (Unit {0}))
  unfolding send_message
  send sub any = elim (unpack sub.message any).0 [
    | none ↦ none
    | some msg ↦ some (send_message sub msg)
  ]

-- `Subscribe::push`
unfoldable pub push : ℕ → ℕ → List Subscriber → List Subscriber
push message channel subs = subs ++ record { message = message; channel = channel } ∷ []
