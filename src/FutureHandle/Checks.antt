-- ===== src/FutureHandle/Checks.antt =====
-- Instances of the theorems on src/util/future_handle.rs.
use actix_send.Prelude.{◌≡◌, refl, List, [], ◌∷◌}
use actix_send.Shared.{woken}
use actix_send.FutureHandle.{ready, poll_finisher, cancel}
use actix_send.FutureHandle.Cancel.{Use, poll_of, cancel_of, use_all, cancel-poll_finisher}
use actix_send.Sample.{running, interval_handler}

-- Another task's poll, a poll of this one, and a second cancel.
abbrev between : List Use
between = poll_of 1 5 ∷ poll_of 0 4 ∷ cancel_of interval_handler ∷ []

cancel-poll_finisher_example :
    let t = cancel interval_handler (poll_finisher 0 9 running).1 in
    (t.log ≡ woken 9 ∷ []) × (poll_finisher 0 3 (use_all between t) ≡ (ready tt, use_all between t))
unfolding poll_finisher
cancel-poll_finisher_example = cancel-poll_finisher interval_handler 9 3 between running refl
