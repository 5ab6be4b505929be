-- ===== src/WebSocket/Decode/Silence.antt =====
-- A client that sends no frame, and a decode stream whose task is polled only when its timer wakes
-- it: `DecodeStream::poll_next` of actix_send_websocket/src/lib.rs.
use actix_send.Prelude.{
  ℕ, zero, suc, ◌+◌, ◌*◌, ◌≤◌, ◌<◌, ◌≡◌, ◌∙◌, refl, ap, Bool, true, false, [], ◌∷◌, Option, none,
  some, ltb, if◌then◌else◌, Bool-cases, inl, inr, arith,
}
use actix_send.FutureHandle.{Poll, ready, pending}
use actix_send.WebSocket.Decode.{Item, Outside, DecodeStream, poll_loop}
use actix_send.WebSocket.Decode.Frames.{poll_loop-beat}

-- When a client is given up whose stream answers `polled` at time `now`: at the end of the stream,
-- where `later` is what becomes of it after a poll that is pending. An item gives no client up.
abbrev pub end_of : Poll (Option Item) → ℕ → Option ℕ → Option ℕ
end_of (ready none) now later = some now
end_of (ready (some item)) now later = none
end_of pending now later = later

if_true : {b : Bool} {x : Option ℕ} → b ≡ true → (if b then x else none) ≡ x
if_true e = rw e refl

module _ (out : Outside) where
  -- The polls of the stream: the first at `now`, and each further one when the timer wakes the task,
  -- `late k` after it runs out, the inner stream always pending. The answer is the time of the poll that
  -- ends the stream, and `none` if nothing wakes the task, or none of the first `polls` does.
  pub given_up : ℕ → (ℕ → ℕ) → ℕ → DecodeStream out → Option ℕ
  unfolding poll_loop
  given_up zero late now d = none
  given_up (suc polls) late now d =
      let (polled, d', _) = poll_loop out now (pending ∷ []) d in
      let later = λ (timer : ℕ). given_up polls (λ k. late (suc k)) (timer + late 0) d' in
      end_of polled now
        (elim d'.timer [ none ↦ none | some timer ↦ if d'.wakes then later timer else none ])

  pub poll_loop-waiting :
      (now timer : ℕ) (d : DecodeStream out)
      → d.read_buf ≡ []
      → d.timer ≡ some timer
      → now < timer
      → let (polled, t, _) = poll_loop out now (pending ∷ []) d in
        (polled ≡ pending)
        × (t.timer ≡ some timer)
        × (t.wakes ≡ true)
        × (t.hb ≡ d.hb)
        × (t.read_buf ≡ [])
  unfolding poll_loop
  poll_loop-waiting now timer d empty runs soon = ground arith

  given_up_dead :
      (polls : ℕ) (late : ℕ → ℕ) (now timer : ℕ) (d : DecodeStream out)
      → d.read_buf ≡ []
      → d.timer ≡ some timer
      → timer ≤ now
      → ltb timer d.hb.deadline ≡ false
      → given_up (suc polls) late now d ≡ some now
  unfolding given_up
  given_up_dead polls late now timer d empty runs due dead =
      let (polled, _, _, _, _, _) = poll_loop-beat out now timer d empty runs due in
      rw (polled, dead) refl

  given_up_alive :
      (polls : ℕ) (late : ℕ → ℕ) (now timer : ℕ) (d : DecodeStream out)
      → d.read_buf ≡ []
      → d.timer ≡ some timer
      → timer ≤ now
      → ltb timer d.hb.deadline ≡ true
      → given_up (suc polls) late now d ≡ (
          if ltb now (timer + d.hb.interval)
          then given_up polls
              (λ k. late (suc k))
              (timer + d.hb.interval + late 0)
              (poll_loop out now (pending ∷ []) d).1
          else none)
  unfolding given_up
  given_up_alive polls late now timer d empty runs due alive =
      let (polled, next, _, wakes, _, _) = poll_loop-beat out now timer d empty runs due in
      rw (polled, next, wakes, alive) refl

  -- A poll before the timer runs out.
  pub given_up_waiting :
      (polls : ℕ) (late : ℕ → ℕ) (now timer : ℕ) (d : DecodeStream out)
      → d.read_buf ≡ []
      → d.timer ≡ some timer
      → now < timer
      → given_up (suc polls) late now d
        ≡ given_up polls (λ k. late (suc k)) (timer + late 0) (poll_loop out now (pending ∷ []) d).1
  unfolding given_up
  given_up_waiting polls late now timer d empty runs soon =
      let (polled, next, wakes, _, _) = poll_loop-waiting now timer d empty runs soon in
      rw (polled, next, wakes) refl

  -- A poll whose timer has run out, less than one interval ago, when each wake-up is less than one
  -- interval late.
  pub given_up_between :
      (interval deadline polls : ℕ) (late : ℕ → ℕ) (now timer : ℕ) (d : DecodeStream out)
      → d.read_buf ≡ []
      → d.timer ≡ some timer
      → d.hb.interval ≡ interval
      → d.hb.deadline ≡ deadline
      → timer ≤ now
      → now < timer + interval
      → ((k : ℕ) → late k < interval)
      → deadline + interval ≤ timer + polls * interval
      → timer < deadline + interval
      → (t : ℕ) × (given_up polls late now d ≡ some t)
        × (deadline ≤ t)
        × (t < deadline + 2 * interval)
  given_up_between interval deadline zero late now timer d empty runs i e due soon lates enough
        early =
      absurd (grind arith)
  given_up_between interval deadline (suc polls) late now timer d empty runs i e due soon lates
        enough early =
      let d' = (poll_loop out now (pending ∷ []) d).1 in
      elim (Bool-cases (ltb timer d.hb.deadline)) [
        | inl alive ↦
            let later : ℕ → Option ℕ =
              λ x. given_up polls (λ k. late (suc k)) (timer + x + late 0) d' in
            let (polled, next, _, wakes, same, read) =
              poll_loop-beat out now timer d empty runs due in
            let in_time : ltb now (timer + d.hb.interval) ≡ true = ground (arith, i, soon) in
            let (t, up, after, before) =
              given_up_between interval deadline polls (λ k. late (suc k))
                (timer + interval + late 0) (timer + interval) d' read (rw (next, alive, i) refl)
                (rw same i) (rw same e) (omega arith) (ground (arith, lates 0)) (λ k. lates (suc k))
                (grind arith) (ground (arith, alive, e)) in
            (
              t,
              given_up_alive polls late now timer d empty runs due alive
                  ∙ if_true in_time
                  ∙ ap later i
                  ∙ up,
              after,
              before,
            )
        | inr dead ↦ (
          now,
          given_up_dead polls late now timer d empty runs due dead,
          ground (arith, dead, e),
          ground (arith, soon, early),
        )
      ]
