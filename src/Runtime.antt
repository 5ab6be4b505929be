-- ===== src/Runtime.antt =====
-- src/util/runtime.rs and `send_timeout` of src/sender.rs: what the library makes of the answers of
-- the async runtime and of the channel.
pub mod Yielding
use actix_send.Prelude.{ℕ, zero, suc, Bool, true, false, List, [], ◌∷◌, Option, none, some}
use actix_send.Error.{Result, ok, err, ActixSendError, closed, timeout, blocking, ◌>>=◌, or_fail}
use actix_send.FutureHandle.{Poll, ready, pending}

-- The answer of the runtime's own timeout: the time ran out, or the future finished with a value.
pub data Timed {ℓ} (A : Type ℓ) : Type ℓ where
  elapsed : Timed A
  within : A → Timed A

-- `runtime::timeout`
unfoldable pub or_timeout {ℓ} : {A : Type ℓ} → Timed A → Result A
or_timeout elapsed = err timeout
or_timeout (within a) = ok a

-- `Sender::send`: the channel answers whether it took the message.
unfoldable pub send : Bool → Result (Unit {0})
send true = ok tt
send false = err closed

-- `map_err(|_| ActixSendError::Closed)`
unfoldable pub as_closed {ℓ} : {A : Type ℓ} → Result A → Result A
as_closed (ok a) = ok a
as_closed (err _) = err closed

timed_send : Timed Bool → Timed (Result (Unit {0}))
timed_send elapsed = elapsed
timed_send (within took) = within (send took)

-- `Sender::send_timeout`, by what became of the timed send on the channel.
unfoldable pub send_timeout : Timed Bool → Result (Unit {0})
unfolding or_timeout send as_closed timed_send
send_timeout answer = do sent ← or_timeout (timed_send answer); as_closed sent

-- `spawn_blocking`: on tokio the join may fail, on async-std it cannot, on actix-rt it panics.
pub data Runtime : Type 0 where
  tokio async_std actix_rt : Runtime

-- `none` is the panic.
unfoldable pub spawn_blocking {ℓ} : {T : Type ℓ} → Runtime → Option T → T → Option (Result T)
spawn_blocking tokio joined value = some (or_fail joined blocking)
spawn_blocking async_std joined value = some (ok value)
spawn_blocking actix_rt joined value = none

-- `YieldNow::poll`: the flag, and whether the waker was woken.
unfoldable pub poll_yield : Bool → Poll (Unit {0}) × Bool × Bool
poll_yield true = (ready tt, true, false)
poll_yield false = (pending, true, true)
