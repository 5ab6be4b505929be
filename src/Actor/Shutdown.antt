-- ===== src/Actor/Shutdown.antt =====
-- What `ActorState::shutdown` of src/actor.rs leaves behind.
use actix_send.Prelude.{ℕ, ◌≡◌, refl, ◌∙◌, true, false, List, [], ◌∷◌, All, arith}
use actix_send.Message.{Program}
use actix_send.Shared.{FutureHandler, Shared}
use actix_send.FutureHandle.{cancel}
use actix_send.FutureHandle.Cancel.{
  active-cancel, config-cancel, cancelled-cancel, cancel-cancelled,
}
use actix_send.Actor.{
  marked, mark, inc_active, dec_active, is_running, push_handler, cancel_all, shutdown,
}

module _ {p : Program} where
  cancel_all-cancelled :
      (hs : List FutureHandler) (s : Shared p) (c : ℕ)
      → (s.cells c).cancelled ≡ true
      → ((cancel_all hs s).cells c).cancelled ≡ true
  unfolding cancel_all
  cancel_all-cancelled [] s c e = e
  cancel_all-cancelled (h ∷ hs) s c e =
      cancel_all-cancelled hs (cancel h s) c (cancel-cancelled h s c e)

  cancel_all_lem :
      (hs : List FutureHandler) (s : Shared p)
      → All (λ h. ((cancel_all hs s).cells h.cell).cancelled ≡ true) hs
  unfolding cancel_all
  cancel_all_lem [] s = tt
  cancel_all_lem (h ∷ hs) s = (
    cancel_all-cancelled hs (cancel h s) h.cell (cancelled-cancel h s),
    cancel_all_lem hs (cancel h s),
  )

  active-cancel_all : (hs : List FutureHandler) (s : Shared p) → (cancel_all hs s).active ≡ s.active
  unfolding cancel_all
  active-cancel_all [] s = refl
  active-cancel_all (h ∷ hs) s = active-cancel_all hs (cancel h s) ∙ active-cancel h s

  active-shutdown : (s : Shared p) → (shutdown s).active ≡ mark s.active
  unfolding shutdown
  active-shutdown s = active-cancel_all s.handlers _

  config-cancel_all : (hs : List FutureHandler) (s : Shared p) → (cancel_all hs s).config ≡ s.config
  unfolding cancel_all
  config-cancel_all [] s = refl
  config-cancel_all (h ∷ hs) s = config-cancel_all hs (cancel h s) ∙ config-cancel h s

  pub config-shutdown : (s : Shared p) → (shutdown s).config ≡ s.config
  unfolding shutdown
  config-shutdown s = config-cancel_all s.handlers (record s { active = mark s.active })

  pub marked-shutdown : (s : Shared p) → marked (shutdown s).active ≡ true
  marked-shutdown s = rw (active-shutdown s) (ground arith)

  closed_when_marked :
      (s : Shared p) (hs : List FutureHandler)
      → marked s.active ≡ true
      → (is_running s ≡ false)
        × (inc_active s ≡ (false, s))
        × (dec_active s ≡ (false, s))
        × (push_handler hs s ≡ s)
  unfolding is_running inc_active dec_active push_handler
  closed_when_marked s hs e = (ground arith, rw e refl, rw e refl, rw e refl)

  -- Shutdown cancels the task of every handler that is registered at that time. In the state that it
  -- leaves, the set is not running, `inc_active` and `dec_active` answer false and change nothing, and
  -- neither does a `push_handler` that checks `is_running` in that state.
  pub shutdown_lem :
      (s : Shared p) (hs : List FutureHandler)
      → All (λ h. ((shutdown s).cells h.cell).cancelled ≡ true) s.handlers
        × (is_running (shutdown s) ≡ false)
        × (inc_active (shutdown s) ≡ (false, shutdown s))
        × (dec_active (shutdown s) ≡ (false, shutdown s))
        × (push_handler hs (shutdown s) ≡ shutdown s)
  shutdown_lem s hs =
      let (run, up, down, push) = closed_when_marked (shutdown s) hs (marked-shutdown s) in
      (unfold shutdown in cancel_all_lem s.handlers _, run, up, down, push)
