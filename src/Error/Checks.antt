-- ===== src/Error/Checks.antt =====
-- Instances of the theorems on src/error.rs at concrete errors.
use actix_send.Prelude.{◌≡◌, ltb, false, if◌then◌else◌}
use actix_send.Error.{fmt_error, overflow, closed, display}
use actix_send.Error.Debug.{display_never_written}

-- A writer that is full after ten writes.
display_never_written_example :
    display (λ k. ltb k 10) 1000 0 closed ≡ (if false then overflow else fmt_error)
display_never_written_example = display_never_written (λ k. ltb k 10) 1000 0 closed
