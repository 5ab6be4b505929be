-- ===== src/Context/Closing.antt =====
-- `close_one` of src/address.rs at a context of src/context.rs, in the middle of any history of all
-- contexts.
use actix_send.Prelude.{
  ℕ, ◌+◌, ◌^◌, ◌≤◌, ◌<◌, ◌≡◌, refl, ap, ◌∙◌, Bool, true, false, List, [], ◌∷◌, ltb, ◌==◌,
  Bool-cases, inl, inr, tally-le, weight-le-tally, arith,
}
use actix_send.Builder.{Config}
use actix_send.Message.{Program, manual_shut_down}
use actix_send.Shared.{Shared, replied_state, usize_mod}
use actix_send.Actor.{current_active, marked}
use actix_send.Context.{ActorContext, Event, got, receiving, stopped, state, turn, dispatch}
use actix_send.Context.Lifecycle.{manual_shut_down_stops}
use actix_send.Context.Fleet.{
  Fleet, launch, step, run, phase_count, counted, counted-le, run-Inv, launch-Inv,
}

module _ {p : Program} (rx_alive : ℕ → Bool) (n : ℕ) where
  turn-stopped :
      (e : Event p) (c : ActorContext p) (s : Shared p)
      → c.phase ≡ stopped
      → turn rx_alive e c s ≡ (c, s)
  unfolding turn dispatch
  turn-stopped e c s h = rw h refl

  -- A step leaves a stopped context as it is.
  step-stopped :
      (f : Fleet p) (x : ℕ × Event p) (i : ℕ)
      → (f.contexts i).phase ≡ stopped
      → (step rx_alive n f x).contexts i ≡ f.contexts i
  unfolding step
  step-stopped f (k, e) i h = elim (Bool-cases (ltb k n)) [
    | inr q ↦ rw q refl
    | inl q ↦ rw q (elim (Bool-cases (k == i)) [
      | inr off ↦ rw off refl
      | inl on ↦
          let same : k ≡ i = ground (arith, on) in
          rw (on, same)
            (ap (λ (x : ActorContext p × Shared p). x.0) (turn-stopped e (f.contexts i) f.shared h))
    ])
  ]

  run-stopped :
      (xs : List (ℕ × Event p)) (f : Fleet p) (i : ℕ)
      → (f.contexts i).phase ≡ stopped
      → (run rx_alive n f xs).contexts i ≡ f.contexts i
  unfolding run
  run-stopped [] f i h = refl
  run-stopped (x ∷ xs) f i h =
      let one = step-stopped f x i h in
      run-stopped xs (step rx_alive n f x) i (ap (λ (c : ActorContext p). c.phase) one ∙ h) ∙ one

  close_step :
      (f : Fleet p) (i tx : ℕ)
      → i < n
      → rx_alive tx ≡ true
      → (f.contexts i).phase ≡ receiving
      → marked f.shared.active ≡ false
      → 2 ≤ f.shared.active
      → f.shared.active < usize_mod
      → let g = step rx_alive n f (i, got (manual_shut_down tx)) in
        (g.shared.log ≡ replied_state tx (state (f.contexts i)) ∷ f.shared.log)
        × (current_active g.shared + 1 ≡ current_active f.shared)
        × ((g.contexts i).phase ≡ stopped)
  unfolding step current_active
  close_step f i tx below alive on u two small =
      let low : ltb i n ≡ true = ground (arith, below) in
      let here : (i == i) ≡ true = ground arith in
      let (stops, _, log, count) =
        manual_shut_down_stops rx_alive tx (f.contexts i) f.shared alive on u two small in
      rw (low, here) (log, count, stops)

  -- After any history from the launch of fewer than 2 ^ 62 contexts, a receiving context takes
  -- `close_one`, whose caller still waits: the caller is answered the context's state, one actor less
  -- is active, and whatever events come then, the context stays stopped as it is.
  pub closed_for_good :
      (config : Config) (actor : p.Actor) (xs ys : List (ℕ × Event p)) (i tx : ℕ)
      → n < 2 ^ 62
      → i < n
      → rx_alive tx ≡ true
      → let f = run rx_alive n (launch config actor) xs in
        (f.contexts i).phase ≡ receiving
        → let g = step rx_alive n f (i, got (manual_shut_down tx)) in
          (g.shared.log ≡ replied_state tx (state (f.contexts i)) ∷ f.shared.log)
          × (current_active g.shared + 1 ≡ current_active f.shared)
          × ((g.contexts i).phase ≡ stopped)
          × ((run rx_alive n g ys).contexts i ≡ g.contexts i)
  closed_for_good config actor xs ys i tx few below alive on =
      let f = run rx_alive n (launch config actor) xs in
      let v =
        run-Inv rx_alive n (launch config actor) xs few (launch-Inv rx_alive n config actor) in
      let own = weight-le-tally counted n f.contexts i below in
      let all = tally-le counted (counted-le rx_alive) n f.contexts in
      let one : counted (f.contexts i) ≡ 1 = ap phase_count on in
      let exact = v.exact in
      let (log, count, stops) =
        close_step f i tx below alive on v.unmarked (omega arith) (omega arith) in
      (log, count, stops, run-stopped ys (step rx_alive n f (i, got (manual_shut_down tx))) i stops)
