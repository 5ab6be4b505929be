-- ===== src/Actor/Checks.antt =====
-- Instances of the theorems on src/actor.rs.
use actix_send.Prelude.{
  ℕ, ◌≡◌, refl, inr, Bool, false, true, none, [], ◌∷◌, ◌++◌, tally, All, arith,
}
use actix_send.Actor.{
  active_count, sub_unit, modify_active, extend_handlers, inc_active, dec_active, is_running,
  push_handler, shutdown,
}
use actix_send.Actor.Race.{read, swap, inc, serve, leave, dec, System, pick, Reach, here, next}
use actix_send.Actor.Race.Count.{active_count-tally, Reach-modify_active}
use actix_send.Actor.Race.Invariant.{counted}
use actix_send.Actor.Shutdown.{shutdown_lem}
use actix_send.Actor.Late.{late_handler}
use actix_send.Shared.{FutureHandler}
use actix_send.Sample.{running}

-- Of two contexts, 0 has been counted in and receives; 1 has loaded the word before.
abbrev one_serving : (s : System) × Reach 2 s
one_serving = (
  _,
  next
      (next (next (next here (pick 1 (omega arith) (inc read))) (pick 0 (omega arith) (inc read)))
        (pick 0 (omega arith) (inc (swap refl refl))))
      (pick 0 (omega arith) serve),
)

-- The same, when 0 has loaded the word for its `dec_active`.
abbrev one_stopping : (s : System) × Reach 2 s
one_stopping =
    (_, next (next one_serving.1 (pick 0 (omega arith) leave)) (pick 0 (omega arith) (dec read)))

active_count-tally_example : active_count 2 ≡ tally counted 2 one_serving.0.pc
active_count-tally_example = active_count-tally (omega arith) one_serving.1 refl

Reach-modify_active_example : ◌≡◌ {A = Bool × ℕ} (true, 0) (modify_active sub_unit 2)
Reach-modify_active_example =
    Reach-modify_active (omega arith) one_stopping.1 0 true (inr refl) (swap refl refl)

-- The cell of a task that is just being spawned.
abbrev new_handler : FutureHandler
new_handler = record { cell = 7; tx = none }

late_handler_example :
    let t = extend_handlers (is_running running) (new_handler ∷ []) (shutdown running) in
    (((shutdown (push_handler (new_handler ∷ []) running)).cells 7).cancelled ≡ true)
    × (is_running t ≡ false)
    × (t.handlers ≡ (shutdown running).handlers ++ new_handler ∷ [])
    × ((t.cells 7).cancelled ≡ false)
unfolding is_running
late_handler_example = late_handler new_handler running refl refl (refl, tt)

shutdown_lem_example :
    All (λ h. ((shutdown running).cells h.cell).cancelled ≡ true) running.handlers
    × (is_running (shutdown running) ≡ false)
    × (inc_active (shutdown running) ≡ (false, shutdown running))
    × (dec_active (shutdown running) ≡ (false, shutdown running))
    × (push_handler [] (shutdown running) ≡ shutdown running)
shutdown_lem_example = shutdown_lem running []
