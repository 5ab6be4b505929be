-- ===== src/Error.antt =====
-- src/error.rs: the error type, its `Debug` and `Display`, and the results that carry it.
pub mod Debug
mod Checks
use Prim.Native.String.{String, ◌++◌}
use actix_send.Prelude.{ℕ, zero, suc, Bool, Option, none, some, if◌then◌else◌}

pub data ActixSendError : Type 0 where
  canceled closed timeout blocking type_cast subscribe broadcast : ActixSendError

pub data Result {ℓ} (A : Type ℓ) : Type ℓ where
  ok : A → Result A
  err : ActixSendError → Result A

-- `Option::ok_or`, and `map_err(|_| e)` of a foreign result whose error is dropped.
abbrev pub or_fail {ℓ} : {A : Type ℓ} → Option A → ActixSendError → Result A
or_fail none e = err e
or_fail (some a) e = ok a

-- The operator `?`, with and without a value.
infixl 5 ◌>>=◌ ◌>>◌
abbrev pub ◌>>=◌ {κ ℓ} :
    {Output : Type κ} {A : Type ℓ} → Result A → (A → Result Output) → Result Output
err failed >>= next = err failed
ok a >>= next = next a

abbrev pub ◌>>◌ {κ} : {Output : Type κ} → Result (Unit {0}) → Result Output → Result Output
err failed >> next = err failed
ok done >> next = next

-- `cause` and `description`, the two fields that `Debug` prints.
pub cause : ActixSendError → String
cause type_cast = "TypeCast"
cause timeout = "Timeout"
cause canceled = "Canceled"
cause closed = "Closed"
cause blocking = "Blocking"
cause subscribe = "Subscribe"
cause broadcast = "Broadcast"

description : ActixSendError → String
description type_cast = "Failed to downcast from dyn Any to a concrete type"
description timeout = "Could not process the message in time"
description canceled = "Oneshot channel is closed before we send anything through it"
description closed = "Actor's message channel is closed"
description blocking = "Failed to run blocking code"
description subscribe = "This address can not be subscribed"
description broadcast = "This address can not broadcasting"

-- What comes of formatting: the text that was written, with the number of the writer's next write;
-- the writer's error; or an overflow of the stack.
pub data Formatted : Type 0 where
  written : ℕ → String → Formatted
  fmt_error : Formatted
  overflow : Formatted

-- The write of ")" behind what is formatted in the parentheses.
close_bracket : (ℕ → Bool) → Formatted → Formatted
close_bracket takes (written k s) = if takes k then written (suc k) ("(" ++ s ++ ")") else fmt_error
close_bracket takes fmt_error = fmt_error
close_bracket takes overflow = overflow

-- `write!(f, "({})", self)` writes "(", formats `self` by `Display` again and writes ")". The writer
-- takes its write number `k` if `takes k`, and the first that it refuses ends the formatting with an
-- error. `frames` is the stack that is left.
pub display : (ℕ → Bool) → ℕ → ℕ → ActixSendError → Formatted
unfolding close_bracket
display takes zero k e = overflow
display takes (suc frames) k e =
    let inner = display takes frames (suc k) e in
    if takes k then close_bracket takes inner else fmt_error
