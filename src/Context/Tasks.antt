-- ===== src/Context/Tasks.antt =====
-- The tasks that a context spawns for delayed messages and interval futures: the closures of
-- `handle_delayed_msg` and `handle_interval_msg` in src/context.rs.
pub mod Delayed
pub mod Registered
pub mod Fate
use actix_send.Prelude.{
  ℕ, ◌+◌, ◌-◌, ◌≡◌, ◌⊎◌, inl, inr, Bool, true, false, List, ◌∷◌, Option, none, some, if◌then◌else◌,
}
use actix_send.Message.{Program, ContextMessage, interval, IntervalMessage}
use actix_send.Shared.{Shared, Effect, sent}
use actix_send.FutureHandle.{Poll, ready, pending, upgrade, poll_finisher}

-- `futures_util::future::select` of a finisher and a timer: it polls the finisher first.
pub record Select : Type 0 where
  pub select : Poll (Unit {0}) → Poll (Unit {0}) → Poll (Unit {0} ⊎ Unit {0})
  pub first : (timer : Poll (Unit {0})) → select (ready tt) timer ≡ ready (inl tt)
  pub second : select pending (ready tt) ≡ ready (inr tt)
  pub neither : select pending pending ≡ pending

module _ {p : Program} where
  -- `let _ = tx.send(msg).await` at the end of a task, which then drops its sender. `took` is what the
  -- channel answers: it refuses the message where no receiver is left, and the task ignores that.
  pub send_and_drop : Bool → ContextMessage p → Shared p → Shared p
  send_and_drop took msg s =
      let dropped = record s { tx_strong = s.tx_strong - 1 } in
      if took then record dropped { log = sent msg ∷ s.log } else dropped

  -- `on_ready` of a delayed message.
  pub on_ready : Bool → Bool → Unit {0} ⊎ Unit {0} → ContextMessage p → Shared p → Shared p
  unfolding send_and_drop
  on_ready took handle_delay_on_shutdown (inl _) msg s =
      if handle_delay_on_shutdown
      then send_and_drop took msg s
      else record s { tx_strong = s.tx_strong - 1 }
  on_ready took handle_delay_on_shutdown (inr _) msg s = send_and_drop took msg s

  -- One poll of the task of a delayed message, by waker `w`: whether it is done, and the state.
  -- `took` is what the channel answers if the poll sends.
  pub poll_delayed :
      Select → Bool → ℕ → ℕ → Poll (Unit {0}) → ContextMessage p → Shared p → Bool × Shared p
  unfolding on_ready
  poll_delayed sel took cell w timer msg s =
      let (finisher, s') = poll_finisher cell w s in
      elim (sel.select finisher timer) [
        | ready either ↦ (true, on_ready took s.config.handle_delayed_on_shutdown either msg s')
        | pending ↦ (false, s')
      ]

  -- One round of the interval loop behind its tick: `none` where it breaks. It does not break where
  -- the channel refuses its message.
  pub interval_round : Bool → ℕ → Shared p → Option (Shared p)
  unfolding upgrade send_and_drop
  interval_round took index s = elim (upgrade s) [
    | none ↦ none
    | some s' ↦ some (send_and_drop took (interval (IntervalMessage.run index)) s')
  ]
