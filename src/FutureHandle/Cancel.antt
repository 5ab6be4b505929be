-- ===== src/FutureHandle/Cancel.antt =====
-- What `FutureHandler::cancel` of src/util/future_handle.rs does to a task that can be cancelled.
use actix_send.Prelude.{
  ℕ, ◌+◌, ◌<◌, ◌≡◌, refl, ap, ◌∙◌, true, List, [], ◌∷◌, Option, none, some, update, arith,
}
use actix_send.Message.{Program, interval, IntervalMessage}
use actix_send.Shared.{FutureHandler, deliver, woken, Shared}
use actix_send.FutureHandle.{ready, pending, poll_finisher, cancel, wake, send_remove}

-- One use of a cell: a poll of its finisher with a waker, or a cancel by a handler.
pub data Use : Type 0 where
  poll_of : ℕ → ℕ → Use
  cancel_of : FutureHandler → Use

module _ {p : Program} where
  send_remove_keeps :
      (tx : Option ℕ) (s : Shared p)
      → ((send_remove tx s).cells ≡ s.cells)
        × ((send_remove tx s).log ≡ s.log)
        × ((send_remove tx s).active ≡ s.active)
        × ((send_remove tx s).config ≡ s.config)
  unfolding send_remove
  send_remove_keeps none s = (refl, refl, refl, refl)
  send_remove_keeps (some k) s = ground arith

  wake_keeps :
      (w : Option ℕ) (s : Shared p)
      → ((wake w s).cells ≡ s.cells)
        × ((wake w s).active ≡ s.active)
        × ((wake w s).tx_strong ≡ s.tx_strong)
        × ((wake w s).config ≡ s.config)
  unfolding wake
  wake_keeps none s = (refl, refl, refl, refl)
  wake_keeps (some w) s = (refl, refl, refl, refl)

  pub cells-cancel :
      (h : FutureHandler) (s : Shared p)
      → (cancel h s).cells ≡ update s.cells h.cell (record { cancelled = true; waker = none })
  unfolding cancel
  cells-cancel h s = ground (
    arith,
    send_remove_keeps h.tx (
        wake (s.cells h.cell).waker
          (record s { cells = update s.cells h.cell (record { cancelled = true; waker = none }) })),
    wake_keeps (s.cells h.cell).waker
        (record s { cells = update s.cells h.cell (record { cancelled = true; waker = none }) }),
  )

  pub active-cancel : (h : FutureHandler) (s : Shared p) → (cancel h s).active ≡ s.active
  unfolding cancel
  active-cancel h s = ground (
    arith,
    send_remove_keeps h.tx (
        wake (s.cells h.cell).waker
          (record s { cells = update s.cells h.cell (record { cancelled = true; waker = none }) })),
    wake_keeps (s.cells h.cell).waker
        (record s { cells = update s.cells h.cell (record { cancelled = true; waker = none }) }),
  )

  pub config-cancel : (h : FutureHandler) (s : Shared p) → (cancel h s).config ≡ s.config
  unfolding cancel
  config-cancel h s = ground (
    arith,
    send_remove_keeps h.tx (
        wake (s.cells h.cell).waker
          (record s { cells = update s.cells h.cell (record { cancelled = true; waker = none }) })),
    wake_keeps (s.cells h.cell).waker
        (record s { cells = update s.cells h.cell (record { cancelled = true; waker = none }) }),
  )

  pub cancelled-cancel :
      (h : FutureHandler) (s : Shared p) → ((cancel h s).cells h.cell).cancelled ≡ true
  cancelled-cancel h s = rw (cells-cancel h s) (ground arith)

  log-cancel :
      (h : FutureHandler) (w : ℕ) (s : Shared p)
      → (s.cells h.cell).waker ≡ some w
      → (cancel h s).log ≡ woken w ∷ s.log
  unfolding cancel wake
  log-cancel h w s e = ground (
    arith,
    send_remove_keeps h.tx (
        wake (s.cells h.cell).waker
          (record s { cells = update s.cells h.cell (record { cancelled = true; waker = none }) })),
  )

  poll_finisher_pending :
      (cell w : ℕ) (s : Shared p)
      → (poll_finisher cell w s).0 ≡ pending
      → (((poll_finisher cell w s).1.cells cell).waker ≡ some w)
        × ((poll_finisher cell w s).1.log ≡ s.log)
  unfolding poll_finisher
  poll_finisher_pending cell w s e = ground arith

  pub poll_finisher_cancelled :
      (cell w : ℕ) (s : Shared p)
      → (s.cells cell).cancelled ≡ true
      → poll_finisher cell w s ≡ (ready tt, s)
  unfolding poll_finisher
  poll_finisher_cancelled cell w s e = rw e refl

  -- A flag that is set stays set.
  pub cancel-cancelled :
      (h : FutureHandler) (s : Shared p) (c : ℕ)
      → (s.cells c).cancelled ≡ true
      → ((cancel h s).cells c).cancelled ≡ true
  cancel-cancelled h s c e = rw (cells-cancel h s) (ground arith)

  poll_finisher-cancelled :
      (cell w : ℕ) (s : Shared p) (c : ℕ)
      → (s.cells c).cancelled ≡ true
      → ((poll_finisher cell w s).1.cells c).cancelled ≡ true
  unfolding poll_finisher
  poll_finisher-cancelled cell w s c e = ground arith

  use_one : Use → Shared p → Shared p
  use_one (poll_of cell w) s = (poll_finisher cell w s).1
  use_one (cancel_of h) s = cancel h s

  pub use_all : List Use → Shared p → Shared p
  unfolding use_one
  use_all [] s = s
  use_all (x ∷ xs) s = use_all xs (use_one x s)

  use_one-cancelled :
      (x : Use) (s : Shared p) (c : ℕ)
      → (s.cells c).cancelled ≡ true
      → ((use_one x s).cells c).cancelled ≡ true
  unfolding use_one
  use_one-cancelled (poll_of cell w) s c e = poll_finisher-cancelled cell w s c e
  use_one-cancelled (cancel_of h) s c e = cancel-cancelled h s c e

  use_all-cancelled :
      (xs : List Use) (s : Shared p) (c : ℕ)
      → (s.cells c).cancelled ≡ true
      → ((use_all xs s).cells c).cancelled ≡ true
  unfolding use_all
  use_all-cancelled [] s c e = e
  use_all-cancelled (x ∷ xs) s c e =
      use_all-cancelled xs (use_one x s) c (use_one-cancelled x s c e)

  -- No wake-up is lost: if a task that polls its finisher with waker `w` finds it pending, the next
  -- cancel wakes `w`. Whatever polls and cancels come after that, of this finisher and of others, each
  -- further poll of the finisher finds it ready and changes nothing.
  pub cancel-poll_finisher :
      (h : FutureHandler) (w v : ℕ) (xs : List Use) (s : Shared p)
      → (poll_finisher h.cell w s).0 ≡ pending
      → let t = cancel h (poll_finisher h.cell w s).1 in
        (t.log ≡ woken w ∷ s.log)
        × (poll_finisher h.cell v (use_all xs t) ≡ (ready tt, use_all xs t))
  cancel-poll_finisher h w v xs s e =
      let (waker, same) = poll_finisher_pending h.cell w s e in
      let t0 = (poll_finisher h.cell w s).1 in
      (
        log-cancel h w t0 waker ∙ ap (λ l. woken w ∷ l) same,
        poll_finisher_cancelled h.cell v (use_all xs (cancel h t0))
            (use_all-cancelled xs (cancel h t0) h.cell (cancelled-cancel h t0)),
      )

  -- Cancelling the handler of an interval future, while the channel has a sender, spawns exactly one
  -- task that asks the actors to drop the future, and that task owns a sender.
  pub cancel-interval :
      (h : FutureHandler) (index : ℕ) (s : Shared p)
      → h.tx ≡ some index
      → 0 < s.tx_strong
      → ((cancel h s).tasks ≡ deliver (interval (IntervalMessage.remove index)) ∷ s.tasks)
        × ((cancel h s).tx_strong ≡ s.tx_strong + 1)
  unfolding cancel send_remove wake
  cancel-interval h index s e live = ground (arith)
