-- ===== src/Actor/Late.antt =====
-- `push_handler` of src/actor.rs checks `is_running` and takes its lock after that.
use actix_send.Prelude.{ℕ, ◌≡◌, refl, true, false, List, [], ◌∷◌, ◌++◌, ◌==◌, ◌∙◌, All, arith}
use actix_send.Message.{Program}
use actix_send.Shared.{FutureHandler, Shared}
use actix_send.FutureHandle.{cancel}
use actix_send.FutureHandle.Cancel.{cells-cancel}
use actix_send.Actor.{is_running, extend_handlers, push_handler, cancel_all, shutdown}
use actix_send.Actor.Shutdown.{shutdown_lem}

All-last : {A : Type 0} (P : A → Type 0) (xs : List A) (x : A) → All P (xs ++ x ∷ []) → P x
All-last P [] x (h, rest) = h
All-last P (y ∷ xs) x (h, rest) = All-last P xs x rest

module _ {p : Program} where
  cancel_all_elsewhere :
      (hs : List FutureHandler) (s : Shared p) (c : ℕ)
      → All (λ h. (h.cell == c) ≡ false) hs
      → ((cancel_all hs s).cells c).cancelled ≡ (s.cells c).cancelled
  unfolding cancel_all
  cancel_all_elsewhere [] s c h = refl
  cancel_all_elsewhere (g ∷ hs) s c (other, h) =
      rw (cancel_all_elsewhere hs (cancel g s) c h, cells-cancel g s) (ground (arith, other))

  handlers-push_handler :
      (hs : List FutureHandler) (s : Shared p)
      → is_running s ≡ true
      → (push_handler hs s).handlers ≡ s.handlers ++ hs
  unfolding push_handler
  handlers-push_handler hs s running = rw running refl

  -- A handler of a task that is not cancelled yet, on a cell that no registered handler is on, pushed
  -- while the set runs. If the set is shut down after the whole push, its task is cancelled. If the
  -- shutdown comes in between the check of the push and its lock, the handler is registered on the set
  -- that is shut down, and its task is not cancelled.
  pub late_handler :
      (h : FutureHandler) (s : Shared p)
      → is_running s ≡ true
      → (s.cells h.cell).cancelled ≡ false
      → All (λ g. (g.cell == h.cell) ≡ false) s.handlers
      → let t = extend_handlers (is_running s) (h ∷ []) (shutdown s) in
        (((shutdown (push_handler (h ∷ []) s)).cells h.cell).cancelled ≡ true)
        × (is_running t ≡ false)
        × (t.handlers ≡ (shutdown s).handlers ++ h ∷ [])
        × ((t.cells h.cell).cancelled ≡ false)
  unfolding extend_handlers push_handler
  late_handler h s running fresh others =
      let all = (shutdown_lem (push_handler (h ∷ []) s) []).0 in
      (
        All-last (λ g. ((shutdown (push_handler (h ∷ []) s)).cells g.cell).cancelled ≡ true)
            s.handlers h (rw (handlers-push_handler (h ∷ []) s running) at all),
        rw running (shutdown_lem s []).1,
        rw running refl,
        rw running (unfold shutdown in cancel_all_elsewhere s.handlers _ h.cell others ∙ fresh),
      )
