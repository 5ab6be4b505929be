-- ===== src/Context/Intervals.antt =====
-- Interval futures as a context handles them: registered, run, removed.
use actix_send.Prelude.{
  ℕ, ◌<◌, ◌≡◌, refl, ap, ◌∙◌, Bool, List, ◌∷◌, some, if◌then◌else◌, ◌==◌, arith,
}
use actix_send.Builder.{Duration}
use actix_send.Message.{Program, FutureObject, handle_future, IntervalMessage}
use actix_send.Shared.{Shared, replied_handler, usize_max, FutureHandler}
use actix_send.Actor.{push_handler}
use actix_send.Interval.{get, put, remove_key}
use actix_send.Interval.Keys.{get-put, get-delete}
use actix_send.Context.{proceed, ActorContext, handle_interval_msg}

module _ {p : Program} (rx_alive : ℕ → Bool) where
  futures-push_handler :
      (hs : List FutureHandler) (s : Shared p)
      → ((push_handler hs s).futures ≡ s.futures) × ((push_handler hs s).log ≡ s.log)
  unfolding push_handler
  futures-push_handler hs s = ground arith

  register_futures :
      (tx : ℕ) (f : FutureObject p) (dur : Duration) (c : ActorContext p) (s : Shared p)
      → s.next_key < usize_max
      → let (control, d, t) =
          handle_interval_msg rx_alive (IntervalMessage.register tx f dur) c s in
        (control ≡ proceed)
        × (d ≡ c)
        × (t.futures ≡ put s.next_key f s.futures)
        × (t.log ≡ (
            if rx_alive tx
            then replied_handler tx (record { cell = s.next_cell; tx = some s.next_key }) ∷ s.log
            else s.log))
  unfolding handle_interval_msg
  register_futures tx f dur c s room = ground arith

  run_futures :
      (k : ℕ) (f : FutureObject p) (c : ActorContext p) (s : Shared p)
      → get k s.futures ≡ some f
      → let (control, d, t) = handle_interval_msg rx_alive (IntervalMessage.run k) c s in
        (d.actor ≡ (handle_future p f c.actor).2)
        × (t.futures ≡ put k (handle_future p f c.actor).1 s.futures)
  unfolding handle_interval_msg
  run_futures k f c s e = rw (e, handle_interval_msg) (refl, refl)

  -- Before the key counter reaches `usize::MAX`, a registered interval future is found by the key
  -- in the handler that the caller gets, where the caller still waits. Running that key runs the
  -- closure on the actor and keeps the closure as it is afterwards; no other future changes.
  pub register-run :
      (tx : ℕ) (f : FutureObject p) (dur : Duration) (c : ActorContext p) (s : Shared p) (j : ℕ)
      → s.next_key < usize_max
      → let k = s.next_key in
        let (_, d, t) = handle_interval_msg rx_alive (IntervalMessage.register tx f dur) c s in
        let (_, e, u) = handle_interval_msg rx_alive (IntervalMessage.run k) d t in
        (t.log ≡ (
          if rx_alive tx
          then replied_handler tx (record { cell = s.next_cell; tx = some k }) ∷ s.log
          else s.log))
        × (e.actor ≡ (handle_future p f c.actor).2)
        × (get j u.futures
            ≡ (if k == j then some (handle_future p f c.actor).1 else get j s.futures))
  register-run tx f dur c s j room =
      let k = s.next_key in
      let r = handle_interval_msg rx_alive (IntervalMessage.register tx f dur) c s in
      let t = r.2 in
      let (_, same, futures, log) = register_futures tx f dur c s room in
      let found : get k t.futures ≡ some f = rw (futures, get-put k k f s.futures) (ground arith) in
      let (actor, kept) = run_futures k f r.1 t found in
      (
        log,
        actor ∙ ap (λ (d : ActorContext p). (handle_future p f d.actor).2) same,
        ap (get j) kept
            ∙ get-put k j (handle_future p f r.1.actor).1 t.futures
            ∙ ground (arith, same, futures, get-put k j f s.futures),
      )

  -- After a removal the key runs nothing: neither the actor nor the futures change.
  pub remove_run :
      (k : ℕ) (c : ActorContext p) (s : Shared p)
      → let (_, d, t) = handle_interval_msg rx_alive (IntervalMessage.remove k) c s in
        handle_interval_msg rx_alive (IntervalMessage.run k) d t ≡ (proceed, c, t)
  unfolding handle_interval_msg remove_key
  remove_run k c s = ground (arith, get-delete k k s.futures)
