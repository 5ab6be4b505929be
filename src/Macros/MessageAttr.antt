-- ===== src/Macros/MessageAttr.antt =====
-- The text of a `#[message(…)]` attribute, as `actor_mod` of actix-send-macros/src/lib.rs reads it.
pub mod Read
use actix_send.Prelude.{
  ℕ, zero, suc, Bool, true, false, not, ◌||◌, List, [], ◌∷◌, ◌++◌, ◌==◌, if◌then◌else◌,
}
use actix_send.Text.{Text, codes, contains, split}

-- `.collect::<Vec<&str>>().pop()`; `split` never answers an empty list.
unfoldable pub last_part : List Text → Text
last_part [] = []
last_part (p ∷ []) = p
last_part (p ∷ q ∷ ps) = last_part (q ∷ ps)

-- `String::pop`, whose answer is not used.
unfoldable pub pop : Text → Text
pop [] = []
pop (c ∷ []) = []
pop (c ∷ d ∷ s) = c ∷ pop (d ∷ s)

unfoldable pub pop_times : ℕ → Text → Text
pop_times zero s = s
pop_times (suc n) s = pop_times n (pop s)

-- Without quotes and spaces.
unfoldable pub unquoted : Text → Text
unquoted [] = []
unquoted (c ∷ s) = let rest = unquoted s in if (c == 34) || (c == 32) then rest else c ∷ rest

-- The text of the result's type, and whether the message is blocking. The nine characters that go
-- with the flag are `,blocking`.
unfoldable pub read_attr : Text → Text × Bool
read_attr tokens =
    let test = pop (unquoted (last_part (split 61 tokens))) in
    let is_blocking = contains (codes "blocking") test in
    (if is_blocking then pop_times 9 test else test, is_blocking)
