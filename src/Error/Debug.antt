-- ===== src/Error/Debug.antt =====
-- What `Debug` and `Display` of src/error.rs print.
use Prim.Native.String.{String}
use text.Mathlib.Text.{◌==◌}
use actix_send.Prelude.{
  ℕ, zero, suc, ◌≡◌, refl, inl, inr, Bool, Bool-cases, true, ◌&&◌, Option, none, some, arith,
  if◌then◌else◌,
}
use actix_send.Error.{
  ActixSendError, canceled, closed, timeout, blocking, type_cast, subscribe, broadcast, cause,
  fmt_error, overflow, close_bracket, display,
}

-- Reads the `cause` field of a printed error back.
pub of_cause : String → Option ActixSendError
of_cause s =
    if s == "TypeCast"
    then some type_cast
    else if s == "Timeout"
    then some timeout
    else if s == "Canceled"
    then some canceled
    else if s == "Closed"
    then some closed
    else if s == "Blocking"
    then some blocking
    else if s == "Subscribe"
    then some subscribe
    else if s == "Broadcast"
    then some broadcast
    else none

-- The printed cause determines the error: reading it back gives the variant that was printed.
pub of_cause-cause : (e : ActixSendError) → of_cause (cause e) ≡ some e
unfolding of_cause cause
of_cause-cause canceled = refl
of_cause-cause closed = refl
of_cause-cause timeout = refl
of_cause-cause blocking = refl
of_cause-cause type_cast = refl
of_cause-cause subscribe = refl
of_cause-cause broadcast = refl

-- Whether the writer takes `n` writes from write `k` on.
abbrev pub takes_all : (ℕ → Bool) → ℕ → ℕ → Bool
takes_all takes zero k = true
takes_all takes (suc n) k = takes k && takes_all takes n (suc k)

-- For every error and every stack depth `Display` prints nothing to the end: it overflows the stack if
-- the writer takes one opening bracket for each frame, and otherwise it ends with the writer's error.
pub display_never_written :
    (takes : ℕ → Bool) (frames k : ℕ) (e : ActixSendError)
    → display takes frames k e ≡ (if takes_all takes frames k then overflow else fmt_error)
unfolding display close_bracket
display_never_written takes zero k e = refl
display_never_written takes (suc frames) k e = elim (Bool-cases (takes_all takes frames (suc k))) [
  | inl all ↦ ground (arith, display_never_written takes frames (suc k) e, all)
  | inr some_refused ↦ ground (arith, display_never_written takes frames (suc k) e, some_refused)
]
