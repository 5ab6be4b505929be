-- ===== src/Interval.antt =====
-- src/interval.rs: the interval futures that a set of actors shares, by key.
pub mod Keys
mod Checks
use actix_send.Prelude.{
  ℕ, zero, suc, ◌+◌, ◌-◌, List, [], ◌∷◌, Option, none, some, ltb, ◌==◌, if◌then◌else◌,
}
use actix_send.Message.{Program, FutureObject}
use actix_send.Shared.{Shared, usize_max, wrapping_add}

-- `HashMap<usize, V>`, a key at most once.
module _ {ℓ} {V : Type ℓ} where
  unfoldable pub get : ℕ → List (ℕ × V) → Option V
  get k [] = none
  get k ((j, v) ∷ m) = if j == k then some v else get k m

  unfoldable pub put : ℕ → V → List (ℕ × V) → List (ℕ × V)
  put k v [] = (k, v) ∷ []
  put k v ((j, w) ∷ m) = if j == k then (k, v) ∷ m else (j, w) ∷ put k v m

  unfoldable pub delete : ℕ → List (ℕ × V) → List (ℕ × V)
  delete k [] = []
  delete k ((j, w) ∷ m) = if j == k then delete k m else (j, w) ∷ delete k m

module _ {p : Program} where
  -- `IntervalFutureSet::insert`: the new key, or `none` where the assertion panics. The counter has
  -- moved on before the assertion is made.
  unfoldable pub insert : FutureObject p → Shared p → Option ℕ × Shared p
  insert future s =
      let key = s.next_key in
      let moved = record s { next_key = wrapping_add key 1 } in
      if ltb key usize_max
      then (some key, record moved { futures = put key future s.futures })
      else (none, moved)

  -- `IntervalFutureSet::remove`
  unfoldable pub remove_key : ℕ → Shared p → Shared p
  remove_key key s = record s { futures = delete key s.futures }
