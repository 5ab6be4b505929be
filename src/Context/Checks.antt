-- ===== src/Context/Checks.antt =====
-- Instances of the theorems on src/context.rs.
use actix_send.Prelude.{
  ◌-◌, ◌+◌, ◌⊎◌, inl, inr, true, false, if◌then◌else◌, ℕ, ◌%◌, ◌≡◌, refl, Bool, not, ◌==◌, List, [],
  ◌∷◌, Option, none, some, tally, arith,
}
use actix_send.Message.{
  DelayedMessage, delayed, instant, manual_shut_down, InstantMessage, IntervalMessage,
  handle_future,
}
use actix_send.FutureHandle.{Poll, ready, pending}
use actix_send.Context.Tasks.{Select, poll_delayed}
use actix_send.Context.Tasks.Fate.{delayed_fate}
use actix_send.Context.Serving.{actor_after}
use actix_send.Context.Closing.{closed_for_good}
use actix_send.Context.Isolation.{events, of_context, run-actor_after}
use actix_send.Shared.{Task, sent, usize_mod, replied_handler, replied_state}
use actix_send.Actor.{current_active, is_running, shutdown}
use actix_send.Interval.{get}
use actix_send.Context.{
  turn, state, stopped, as_instant, ActorContext, Event, begin, got, closed, receiving, new_context,
  handle_interval_msg,
}
use actix_send.Context.Lifecycle.{rounds, closed_again_and_again}
use actix_send.Context.Fleet.{Fleet, step, launch, run, counted, current_active-run}
use actix_send.Context.Intervals.{register-run}
use actix_send.Sample.{totals, restarting, counter, running}

-- Every caller waits, except the one with number 4.
abbrev waits : ℕ → Bool
waits tx = not (tx == 4)

abbrev serving : ActorContext totals
serving = record (new_context 0 none 10) { phase = receiving; generation = 1 }

closed_again_and_again_example :
    ((rounds waits 3 (serving, running)).0.phase ≡ receiving)
    × ((rounds waits 3 (serving, running)).0.generation % usize_mod ≡ 4)
    × ((rounds waits 3 (serving, running)).1.active ≡ 4)
unfolding new_context
closed_again_and_again_example = closed_again_and_again waits 3 serving running (record {
  receives = refl;
  restart = refl;
  by_hand = refl;
  unmarked = refl;
  counted = omega arith;
  small = omega arith;
})

-- Two contexts start, one is shut down by hand, and the other restarts.
abbrev history : List (ℕ × Event totals)
history =
    (0, begin)
    ∷ (1, begin)
    ∷ (0, got (instant (InstantMessage.static (some 2) 5)))
    ∷ (1, got (manual_shut_down 3))
    ∷ (0, closed)
    ∷ []

current_active-run_example :
    current_active (run waits 2 (launch restarting 10) history).shared
    ≡ tally counted 2 (run waits 2 (launch restarting 10) history).contexts
current_active-run_example = current_active-run waits 2 restarting 10 history (omega arith)

register-run_example :
    let (_, d, t) =
      handle_interval_msg waits (IntervalMessage.register 2 (counter 6) 3) serving running in
    let (_, e, u) = handle_interval_msg waits (IntervalMessage.run 1) d t in
    (t.log ≡ replied_handler 2 (record { cell = 1; tx = some 1 }) ∷ [])
    × (e.actor ≡ (handle_future totals (counter 6) serving.actor).2)
    × (get 1 u.futures ≡ some (handle_future totals (counter 6) serving.actor).1)
register-run_example = register-run waits 2 (counter 6) 3 serving running 1 (omega arith)

-- `select` of two futures: the first one that is ready.
abbrev first_ready : Poll (Unit {0}) → Poll (Unit {0}) → Poll (Unit {0} ⊎ Unit {0})
first_ready (ready a) timer = ready (inl a)
first_ready pending (ready b) = ready (inr b)
first_ready pending pending = pending

abbrev selects : Select
selects = record { select = first_ready; first = λ timer. refl; second = refl; neither = refl }

abbrev both_running : Fleet totals
both_running = record { shared = running; contexts = λ _. serving }

delayed_fate_example :
    let (msg, dur) = as_instant {p = totals} (DelayedMessage.static 5 30) in
    let taken = step waits 2 both_running (1, got (delayed (DelayedMessage.static 5 30))) in
    let t = shutdown (run waits 2 taken ((0, closed) ∷ [])).shared in
    let (done, u) = poll_delayed selects true 1 3 pending msg t in
    (taken.shared.tasks ≡ Task.delayed 1 msg dur ∷ [])
    × (done ≡ true)
    × (u.log ≡ (if false then if true then sent msg ∷ t.log else t.log else t.log))
    × (u.tx_strong ≡ t.tx_strong - 1)
unfolding is_running
delayed_fate_example =
    delayed_fate selects waits 2 both_running 1 (DelayedMessage.static 5 30) ((0, closed) ∷ [])
      (omega arith) refl refl (omega arith) true 3 pending

-- Two contexts take two messages each, in turns.
abbrev mixed : List (ℕ × (Option ℕ × ℕ))
mixed = (0, (none, 5)) ∷ (1, (some 2, 6)) ∷ (0, (some 3, 7)) ∷ (1, (none, 8)) ∷ []

run-actor_after_example :
    (run waits 2 both_running (events {p = totals} mixed)).contexts 1
    ≡ record serving { actor = actor_after totals (of_context 1 mixed) serving.actor }
run-actor_after_example =
    run-actor_after waits 2 both_running mixed (λ j. refl)
      (omega arith, (omega arith, (omega arith, (omega arith, tt)))) 1

two_started :
    ((run waits 2 (launch {p = totals} restarting 10) ((0, begin) ∷ (1, begin) ∷ [])).contexts
      1).phase
    ≡ receiving
unfolding run step launch turn new_context
two_started = refl

-- After two starts, the second context is closed, and later events do not wake it.
closed_for_good_example :
    let f = run waits 2 (launch {p = totals} restarting 10) ((0, begin) ∷ (1, begin) ∷ []) in
    let g = step waits 2 f (1, got (manual_shut_down 3)) in
    (g.shared.log ≡ replied_state 3 (state (f.contexts 1)) ∷ f.shared.log)
    × (current_active g.shared + 1 ≡ current_active f.shared)
    × ((g.contexts 1).phase ≡ stopped)
    × ((run waits 2 g ((1, begin) ∷ (0, closed) ∷ [])).contexts 1 ≡ g.contexts 1)
closed_for_good_example =
    closed_for_good waits 2 restarting 10 ((0, begin) ∷ (1, begin) ∷ [])
      ((1, begin) ∷ (0, closed) ∷ []) 1 3 (omega arith) (omega arith) refl two_started
