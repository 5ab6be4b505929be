-- ===== src/Context/Tasks/Registered.antt =====
-- The handlers that a set of actors has registered (src/actor.rs), past the steps of all contexts.
use actix_send.Prelude.{
  ℕ, ◌<◌, ◌≡◌, refl, ◌∙◌, inl, inr, Bool, true, false, ◌||◌, List, [], ◌∷◌, ◌++◌, Option, none,
  some, ltb, ◌==◌, All, Bool-cases, arith,
}
use actix_send.Message.{
  Program, DelayedMessage, IntervalMessage, InstantMessage, ContextMessage, instant, delayed,
  interval, manual_shut_down,
}
use actix_send.Shared.{FutureHandler, Task, Effect, Shared}
use actix_send.FutureHandle.{upgrade, spawn, new_cell, attach_tx}
use actix_send.Interval.{insert, remove_key}
use actix_send.Actor.{is_running, inc_active, dec_active, push_handler}
use actix_send.Context.{
  ActorContext, Phase, fresh, receiving, Control, proceed, break, panic, Event, begin, got, closed,
  as_instant, answer, handle_delayed_msg, handle_instant_msg, handle_interval_msg, handle_msg,
  start, finish, after_msg, dispatch, turn,
}
use actix_send.Context.Keeps.{handle_msg-keeps}
use actix_send.Context.Fleet.{Fleet, step, run}

-- Some handler is on the cell.
unfoldable pub registered : ℕ → List FutureHandler → Bool
registered k [] = false
registered k (h ∷ hs) = h.cell == k || registered k hs

registered-append :
    (k : ℕ) (hs gs : List FutureHandler)
    → registered k (hs ++ gs) ≡ (registered k hs || registered k gs)
unfolding registered
registered-append k [] gs = ground arith
registered-append k (h ∷ hs) gs = ground (arith, registered-append k hs gs)

pub All-registered :
    (P : ℕ → Bool) (k : ℕ) (hs : List FutureHandler)
    → All (λ h. P h.cell ≡ true) hs
    → registered k hs ≡ true
    → P k ≡ true
unfolding registered
All-registered P k [] h e = ground arith
All-registered P k (g ∷ hs) h e = elim (Bool-cases (g.cell == k)) [
  | inl q ↦ let same : k ≡ g.cell = ground (arith, q) in rw same h.0
  | inr q ↦ All-registered P k hs h.1 (ground (arith, q, e))
]

module _ {p : Program} where
  push_handler-registered :
      (k : ℕ) (hs : List FutureHandler) (s : Shared p)
      → registered k s.handlers ≡ true
      → registered k (push_handler hs s).handlers ≡ true
  unfolding push_handler
  push_handler-registered k hs s e = ground (arith, registered-append k s.handlers hs)

  delayed-registered :
      (k : ℕ) (m : DelayedMessage p) (s : Shared p)
      → registered k s.handlers ≡ true
      → registered k (handle_delayed_msg m s).handlers ≡ true
  unfolding handle_delayed_msg push_handler
  delayed-registered k (DelayedMessage.static m d) s e =
      ground
        (arith, e, registered-append k s.handlers (record { cell = s.next_cell; tx = none } ∷ []))
  delayed-registered k (DelayedMessage.dynamic m d) s e =
      ground
        (arith, e, registered-append k s.handlers (record { cell = s.next_cell; tx = none } ∷ []))

  -- A running set with a sender left registers the handler of a delayed message on the next cell, and
  -- spawns its task there.
  pub delayed_taken :
      (m : DelayedMessage p) (s : Shared p)
      → is_running s ≡ true
      → 0 < s.tx_strong
      → let t = handle_delayed_msg m s in
        (registered s.next_cell t.handlers ≡ true)
        × (t.tasks ≡ Task.delayed s.next_cell (as_instant m).0 (as_instant m).1 ∷ s.tasks)
        × (t.config ≡ s.config)
  unfolding handle_delayed_msg push_handler upgrade registered
  delayed_taken (DelayedMessage.static m d) s r h = ground (
    arith,
    r,
    registered-append s.next_cell s.handlers (record { cell = s.next_cell; tx = none } ∷ []),
  )
  delayed_taken (DelayedMessage.dynamic m d) s r h = ground (
    arith,
    r,
    registered-append s.next_cell s.handlers (record { cell = s.next_cell; tx = none } ∷ []),
  )

module _ {p : Program} (rx_alive : ℕ → Bool) (k : ℕ) where
  -- The cell has a handler in `t` if it has one in `s`.
  abbrev IsKept : Shared p → Shared p → Type 0
  IsKept s t = registered k s.handlers ≡ true → registered k t.handlers ≡ true

  answer-IsKept :
      (tx : Option ℕ) (e : ℕ → Effect p) (s : Shared p) → IsKept s (answer rx_alive tx e s)
  unfolding answer
  answer-IsKept none e s h = h
  answer-IsKept (some tx) e s h = ground (arith, h)

  instant-IsKept :
      (m : InstantMessage p) (c : ActorContext p) (s : Shared p)
      → IsKept s (handle_instant_msg rx_alive m c s).1
  unfolding handle_instant_msg
  instant-IsKept (InstantMessage.static tx m) c s h = answer-IsKept tx _ s h
  instant-IsKept (InstantMessage.dynamic tx m) c s h = answer-IsKept tx _ s h

  interval-IsKept :
      (m : IntervalMessage p) (c : ActorContext p) (s : Shared p)
      → IsKept s (handle_interval_msg rx_alive m c s).2
  unfolding handle_interval_msg push_handler answer insert remove_key new_cell spawn
  interval-IsKept (IntervalMessage.run i) c s h = ground (arith, h)
  interval-IsKept (IntervalMessage.remove i) c s h = ground (arith, h)
  interval-IsKept (IntervalMessage.register tx f d) c s h = ground (
    arith,
    h,
    registered-append k s.handlers
        (attach_tx s.next_key (record { cell = s.next_cell; tx = none }) ∷ []),
  )

  handle_msg-IsKept :
      (m : ContextMessage p) (c : ActorContext p) (s : Shared p)
      → IsKept s (handle_msg rx_alive m c s).2
  unfolding handle_msg
  handle_msg-IsKept (instant m) c s h = instant-IsKept m c s h
  handle_msg-IsKept (delayed m) c s h = delayed-registered k m s h
  handle_msg-IsKept (interval m) c s h = interval-IsKept m c s h
  handle_msg-IsKept (manual_shut_down tx) c s h = ground (arith, h, answer-IsKept (some tx))

  finish_keeps :
      (c : ActorContext p) (s : Shared p)
      → let t = (finish rx_alive c s).1 in IsKept s t × (t.config ≡ s.config)
  unfolding finish dec_active
  finish_keeps c s = ground arith

  after_msg_keeps :
      (r : Control) (c : ActorContext p) (s : Shared p)
      → let t = (after_msg rx_alive (r, c, s)).1 in IsKept s t × (t.config ≡ s.config)
  unfolding after_msg
  after_msg_keeps proceed c s = (λ h. h, refl)
  after_msg_keeps break c s = finish_keeps c s
  after_msg_keeps panic c s = (λ h. h, refl)

  got_keeps :
      (m : ContextMessage p) (c : ActorContext p) (s : Shared p)
      → let t = (after_msg rx_alive (handle_msg rx_alive m c s)).1 in
        IsKept s t × (t.config ≡ s.config)
  got_keeps m c s =
      let r = handle_msg rx_alive m c s in
      let (kept, same) = after_msg_keeps r.0 r.1 r.2 in
      let (_, set) = handle_msg-keeps rx_alive m c s in
      (λ h. kept (handle_msg-IsKept m c s h), same ∙ set.config)

  dispatch_keeps :
      (ph : Phase) (e : Event p) (c : ActorContext p) (s : Shared p)
      → let t = (dispatch rx_alive ph e c s).1 in IsKept s t × (t.config ≡ s.config)
  unfolding dispatch start inc_active
  dispatch_keeps fresh begin c s = (λ h. h, refl)
  dispatch_keeps receiving (got m) c s = got_keeps m c s
  dispatch_keeps receiving closed c s = finish_keeps c s
  dispatch_keeps ph e c s = ground arith

  turn_keeps :
      (e : Event p) (c : ActorContext p) (s : Shared p)
      → let t = (turn rx_alive e c s).1 in IsKept s t × (t.config ≡ s.config)
  unfolding turn
  turn_keeps e c s = dispatch_keeps c.phase e c s

  step_keeps :
      (n : ℕ) (x : ℕ × Event p) (f : Fleet p)
      → let t = (step rx_alive n f x).shared in IsKept f.shared t × (t.config ≡ f.shared.config)
  unfolding step
  step_keeps n (i, e) f = elim (Bool-cases (ltb i n)) [
    | inl q ↦ rw q (turn_keeps e (f.contexts i) f.shared)
    | inr q ↦ rw q ((λ h. h), refl)
  ]

  pub run_keeps :
      (n : ℕ) (xs : List (ℕ × Event p)) (f : Fleet p)
      → let t = (run rx_alive n f xs).shared in IsKept f.shared t × (t.config ≡ f.shared.config)
  unfolding run
  run_keeps n [] f = (λ h. h, refl)
  run_keeps n (x ∷ xs) f =
      let (kept, same) = step_keeps n x f in
      let (later, then_same) = run_keeps n xs (step rx_alive n f x) in
      (λ h. later (kept h), then_same ∙ same)
