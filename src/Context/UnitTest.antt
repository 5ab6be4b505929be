-- ===== src/Context/UnitTest.antt =====
-- The test `active_count` of tests/actor.rs, on the model of the contexts.
use actix_send.Prelude.{ℕ, ◌≡◌, refl, true, List, [], ◌∷◌, ◌++◌}
use actix_send.Builder.{default, Config}
use actix_send.Message.{manual_shut_down}
use actix_send.Shared.{new}
use actix_send.Actor.{current_active}
use actix_send.Context.{Event, begin, got, turn, new_context}
use actix_send.Context.Fleet.{launch, run, step}
use actix_send.Sample.{totals}

-- `num(8)`, where every context starts.
abbrev eight : Config
eight = record default { num = 8 }

abbrev all_start : List (ℕ × Event totals)
all_start =
    (0, begin)
    ∷ (1, begin)
    ∷ (2, begin)
    ∷ (3, begin)
    ∷ (4, begin)
    ∷ (5, begin)
    ∷ (6, begin)
    ∷ (7, begin)
    ∷ []

-- Three calls of `close_one`, each taken by some context.
abbrev three_close : List (ℕ × Event totals)
three_close =
    (4, got (manual_shut_down 1))
    ∷ (0, got (manual_shut_down 2))
    ∷ (7, got (manual_shut_down 3))
    ∷ []

eight_active : current_active (run (λ _. true) 8 (launch eight 0) all_start).shared ≡ 8
unfolding current_active run step launch turn new new_context default
eight_active = refl

five_active :
    current_active (run (λ _. true) 8 (launch eight 0) (all_start ++ three_close)).shared ≡ 5
unfolding current_active run step launch turn new new_context default
five_active = refl
