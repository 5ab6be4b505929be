-- ===== src/Context/Tasks/Fate.antt =====
-- A delayed message of src/context.rs from the context that takes it, past the steps of all contexts,
-- to a shutdown of src/actor.rs and the next poll of its task.
use actix_send.Prelude.{
  ℕ, ◌-◌, ◌<◌, ◌≡◌, ap, ◌∙◌, Bool, true, List, [], ◌∷◌, ltb, if◌then◌else◌, arith,
}
use actix_send.Builder.{Config}
use actix_send.Message.{Program, DelayedMessage, delayed}
use actix_send.Shared.{Task, Effect, sent}
use actix_send.FutureHandle.{Poll}
use actix_send.Actor.{is_running, shutdown}
use actix_send.Actor.Shutdown.{shutdown_lem, config-shutdown}
use actix_send.Context.{receiving, Event, got, as_instant, handle_msg, after_msg, dispatch, turn}
use actix_send.Context.Fleet.{Fleet, step, run}
use actix_send.Context.Tasks.{Select, poll_delayed}
use actix_send.Context.Tasks.Delayed.{poll_delayed_cancelled}
use actix_send.Context.Tasks.Registered.{registered, All-registered, delayed_taken, run_keeps}

module _ {p : Program} (sel : Select) (rx_alive : ℕ → Bool) where
  taken_step :
      (n : ℕ) (f : Fleet p) (i : ℕ) (m : DelayedMessage p)
      → i < n
      → (f.contexts i).phase ≡ receiving
      → is_running f.shared ≡ true
      → 0 < f.shared.tx_strong
      → let s = f.shared in
        let t = (step rx_alive n f (i, got (delayed m))).shared in
        (registered s.next_cell t.handlers ≡ true)
        × (t.tasks ≡ Task.delayed s.next_cell (as_instant m).0 (as_instant m).1 ∷ s.tasks)
        × (t.config ≡ s.config)
  unfolding step turn dispatch after_msg handle_msg
  taken_step n f i m below on running left =
      let low : ltb i n ≡ true = ground (arith, below) in
      rw (low, on) (delayed_taken m f.shared running left)

  -- A delayed message that a receiving context of a running set takes while a sender is left: its task
  -- is spawned on the next cell. Whatever steps the contexts take then, after a shutdown a poll
  -- of that task ends it, whatever its timer says. If the set handles delayed messages on shutdown, the
  -- task offers the message to the channel, and it is sent exactly if the channel takes it, which
  -- the task does not look at; else nothing is sent. The task's sender is given back either way.
  pub delayed_fate :
      (n : ℕ) (f : Fleet p) (i : ℕ) (m : DelayedMessage p) (xs : List (ℕ × Event p))
      → i < n
      → (f.contexts i).phase ≡ receiving
      → is_running f.shared ≡ true
      → 0 < f.shared.tx_strong
      → (took : Bool) (w : ℕ) (timer : Poll (Unit {0}))
      → let s = f.shared in
        let (msg, dur) = as_instant m in
        let taken = step rx_alive n f (i, got (delayed m)) in
        let t = shutdown (run rx_alive n taken xs).shared in
        let (done, u) = poll_delayed sel took s.next_cell w timer msg t in
        (taken.shared.tasks ≡ Task.delayed s.next_cell msg dur ∷ s.tasks)
        × (done ≡ true)
        × (u.log ≡ (
            if s.config.handle_delayed_on_shutdown
            then if took then sent msg ∷ t.log else t.log
            else t.log))
        × (u.tx_strong ≡ t.tx_strong - 1)
  delayed_fate n f i m xs below on running left took w timer =
      let s = f.shared in
      let taken = step rx_alive n f (i, got (delayed m)) in
      let t = (run rx_alive n taken xs).shared in
      let (here, tasks, same) = taken_step n f i m below on running left in
      let (kept, later) = run_keeps rx_alive s.next_cell n xs taken in
      let off =
        All-registered (λ c. ((shutdown t).cells c).cancelled) s.next_cell t.handlers
          (shutdown_lem t []).0 (kept here) in
      let (done, log, tx) =
        poll_delayed_cancelled sel took s.next_cell w timer (as_instant m).0 (shutdown t) off in
      let config = config-shutdown t ∙ later ∙ same in
      let log_of : Config → List (Effect p) = λ cfg.
        if cfg.handle_delayed_on_shutdown
        then if took then sent (as_instant m).0 ∷ (shutdown t).log else (shutdown t).log
        else (shutdown t).log in
      (tasks, done, log ∙ ap log_of config, tx)
