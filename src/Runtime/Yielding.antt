-- ===== src/Runtime/Yielding.antt =====
-- `yield_now` of src/util/runtime.rs, poll by poll.
use actix_send.Prelude.{ℕ, zero, suc, ◌≡◌, refl, Bool, true, false}
use actix_send.FutureHandle.{Poll, ready, pending}
use actix_send.Runtime.{poll_yield}

-- The answer of the poll after `n` earlier ones.
pub poll_after : ℕ → Bool → Poll (Unit {0})
unfolding poll_yield
poll_after zero y = (poll_yield y).0
poll_after (suc n) y = poll_after n (poll_yield y).1

poll_after_yielded : (n : ℕ) → poll_after n true ≡ ready tt
unfolding poll_after
poll_after_yielded zero = refl
poll_after_yielded (suc n) = poll_after_yielded n

-- The first poll of `yield_now` is pending and wakes its own task; every later poll is ready.
pub yield_once :
    (n : ℕ)
    → (poll_after 0 false ≡ pending)
      × ((poll_yield false).2 ≡ true)
      × (poll_after (suc n) false ≡ ready tt)
unfolding poll_after
yield_once n = (refl, refl, poll_after_yielded n)
