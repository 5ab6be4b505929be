-- ===== src/Context/Tasks/Delayed.antt =====
-- What becomes of a delayed message, and when an interval loop ends.
use actix_send.Prelude.{ℕ, ◌-◌, ◌≡◌, inl, Bool, true, false, ◌∷◌, some, if◌then◌else◌, arith}
use actix_send.Message.{Program, ContextMessage}
use actix_send.Shared.{Shared, sent}
use actix_send.FutureHandle.{Poll, ready, pending, poll_finisher}
use actix_send.Context.Tasks.{Select, on_ready, poll_delayed}

module _ {p : Program} (sel : Select) where
  open sel use {first, second, neither}

  poll_delayed_by_finisher :
      (took : Bool) (cell w : ℕ) (timer : Poll (Unit {0})) (msg : ContextMessage p) (s : Shared p)
      → (s.cells cell).cancelled ≡ true
      → poll_delayed sel took cell w timer msg s
        ≡ (true, on_ready took s.config.handle_delayed_on_shutdown (inl tt) msg s)
  unfolding poll_delayed poll_finisher
  poll_delayed_by_finisher took cell w timer msg s e = ground (arith, first timer)

  -- Once its handler has been cancelled, the next poll ends the task of a delayed message, whatever
  -- its timer says. The message goes to the actors exactly if the set handles delayed messages on
  -- shutdown and the channel takes it, and the task's sender is given back either way.
  pub poll_delayed_cancelled :
      (took : Bool) (cell w : ℕ) (timer : Poll (Unit {0})) (msg : ContextMessage p) (s : Shared p)
      → (s.cells cell).cancelled ≡ true
      → let (done, t) = poll_delayed sel took cell w timer msg s in
        (done ≡ true)
        × (t.log ≡ (
            if s.config.handle_delayed_on_shutdown
            then if took then sent msg ∷ s.log else s.log
            else s.log))
        × (t.tx_strong ≡ s.tx_strong - 1)
  unfolding on_ready
  poll_delayed_cancelled took cell w timer msg s e =
      rw (poll_delayed_by_finisher took cell w timer msg s e) (ground arith)

  -- A task that was not cancelled offers its message to the channel at the first poll that finds its timer ready, and
  -- before that it sends nothing and leaves its waker with the finisher.
  pub poll_delayed_running :
      (took : Bool) (cell w : ℕ) (msg : ContextMessage p) (s : Shared p)
      → (s.cells cell).cancelled ≡ false
      → let (done, t) = poll_delayed sel took cell w (ready tt) msg s in
        let (early, u) = poll_delayed sel took cell w pending msg s in
        (done ≡ true)
        × (t.log ≡ (if took then sent msg ∷ s.log else s.log))
        × (early ≡ false)
        × (u.log ≡ s.log)
        × ((u.cells cell).waker ≡ some w)
  unfolding poll_delayed poll_finisher
  poll_delayed_running took cell w msg s e = ground (arith, second, neither)
