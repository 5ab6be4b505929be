-- ===== src/FutureHandle.antt =====
-- src/util/future_handle.rs: cancelable tasks, and the handlers that cancel them.
pub mod Cancel
mod Checks
use actix_send.Prelude.{
  update, ℕ, suc, ◌+◌, true, false, ◌∷◌, Option, none, some, ltb, if◌then◌else◌,
}
use actix_send.Message.{Program, ContextMessage, IntervalMessage, interval}
use actix_send.Shared.{FutureHandler, Task, deliver, woken, Shared}

-- `Poll<T>`
pub data Poll {ℓ} (A : Type ℓ) : Type ℓ where
  ready : A → Poll A
  pending : Poll A

module _ {p : Program} where
  -- `WeakSender::upgrade` succeeds while some strong sender is left; the new one is counted.
  unfoldable pub upgrade : Shared p → Option (Shared p)
  upgrade s = if ltb 0 s.tx_strong then some (record s { tx_strong = s.tx_strong + 1 }) else none

  -- `runtime::spawn`
  unfoldable pub spawn : Task p → Shared p → Shared p
  spawn t s = record s { tasks = t ∷ s.tasks }

  -- `FinisherFuture::poll`, by the task whose waker is `w`.
  unfoldable pub poll_finisher : ℕ → ℕ → Shared p → Poll (Unit {0}) × Shared p
  poll_finisher cell w s = if (s.cells cell).cancelled then (ready tt, s) else (
    pending,
    record s { cells = update s.cells cell (record (s.cells cell) { waker = some w }) },
  )

  -- `spawn_cancelable`: the new cell and the handler on it; the caller spawns its task.
  unfoldable pub new_cell : Shared p → ℕ × Shared p
  new_cell s = (
    s.next_cell,
    record s {
      cells = update s.cells s.next_cell (record { cancelled = false; waker = none });
      next_cell = suc s.next_cell;
    },
  )

  wake : Option ℕ → Shared p → Shared p
  wake none s = s
  wake (some w) s = record s { log = woken w ∷ s.log }

  -- The message that asks the actors to drop interval future `index`.
  remove_message : ℕ → ContextMessage p
  remove_message index = interval (IntervalMessage.remove index)

  send_remove : Option ℕ → Shared p → Shared p
  unfolding upgrade spawn remove_message
  send_remove none s = s
  send_remove (some index) s = elim (upgrade s) [
    | none ↦ s
    | some s' ↦ spawn (deliver (remove_message index)) s'
  ]

  -- `FutureHandler::cancel`
  unfoldable pub cancel : FutureHandler → Shared p → Shared p
  unfolding wake send_remove
  cancel h s =
      let opt = (s.cells h.cell).waker in
      let flagged = record s {
        cells = update s.cells h.cell (record { cancelled = true; waker = none });
      } in
      send_remove h.tx (wake opt flagged)

-- `attach_tx`
unfoldable pub attach_tx : ℕ → FutureHandler → FutureHandler
attach_tx index h = record h { tx = some index }
