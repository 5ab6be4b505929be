-- ===== src/Stream/Checks.antt =====
-- Instances of the theorems on src/stream.rs: one item answered at once, one skipped, one in flight.
use actix_send.Prelude.{ℕ, ◌+◌, ◌≡◌, true, List, [], ◌∷◌, Option, none, some}
use actix_send.Error.{ok}
use actix_send.FutureHandle.{Poll, ready, pending}
use actix_send.Stream.{next, Answers, outputs, skip_outputs}
use actix_send.Stream.Skip.{compact, skip_outputs-outputs}
use actix_send.Stream.Flow.{items, in_flight, after, outputs-items}

abbrev source : List (Poll (Option (Option ℕ)))
source = ready (some (some 5)) ∷ ready (some none) ∷ ready (some (some 6)) ∷ ready none ∷ []

abbrev polls : List (Answers ℕ)
polls =
    record { fresh = 0; took = true; reply = λ _. ready (some 9) }
    ∷ record { fresh = 1; took = true; reply = λ _. pending }
    ∷ []

skip_outputs-outputs_example :
    skip_outputs {Output = ℕ} ok (next, source) polls ≡ outputs ok (next, compact source) polls
skip_outputs-outputs_example = skip_outputs-outputs ok next source polls

outputs-items_example :
    items (outputs {Output = ℕ} ok (next, compact source) polls)
      + in_flight (after {Output = ℕ} ok (next, compact source) polls).0
      + items (after {Output = ℕ} ok (next, compact source) polls).1
    ≡ 2
outputs-items_example = outputs-items ok next (compact source) polls
