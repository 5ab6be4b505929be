-- ===== src/Actor.antt =====
-- src/actor.rs: the count of active actors with its marker bit, and the shutdown of a set.
pub mod Race
pub mod Shutdown
pub mod Late
mod Checks
use actix_send.Prelude.{
  ℕ, ◌+◌, ◌/◌, ◌%◌, Bool, true, false, not, List, [], ◌∷◌, ◌++◌, ◌==◌, if◌then◌else◌,
}
use actix_send.Message.{Program}
use actix_send.FutureHandle.{cancel}
use actix_send.Shared.{FutureHandler, Shared, wrapping_add, wrapping_sub}

-- `UNIT`, one actor in `active`; the bit below it is `MARKER`.
abbrev pub unit : ℕ
unit = 2

-- `active & MARKER != 0`
abbrev pub marked : ℕ → Bool
marked active = active % 2 == 1

-- `active | MARKER`
abbrev pub mark : ℕ → ℕ
mark active = if marked active then active else active + 1

-- `active >> 1`, what `current_active` reports.
abbrev pub active_count : ℕ → ℕ
active_count active = active / 2

-- The functions that `inc_active` and `dec_active` hand to `modify_active`.
abbrev pub add_unit : ℕ → ℕ
add_unit active = wrapping_add active unit

abbrev pub sub_unit : ℕ → ℕ
sub_unit active = wrapping_sub active unit

-- `modify_active` where no other thread comes in between; Race has the loop.
unfoldable pub modify_active : (ℕ → ℕ) → ℕ → Bool × ℕ
modify_active f active = if marked active then (false, active) else (true, f active)

module _ {p : Program} where
  unfoldable pub inc_active : Shared p → Bool × Shared p
  unfolding modify_active
  inc_active s =
      let (done, active) = modify_active add_unit s.active in (done, record s { active = active })

  unfoldable pub dec_active : Shared p → Bool × Shared p
  unfolding modify_active
  dec_active s =
      let (done, active) = modify_active sub_unit s.active in (done, record s { active = active })

  unfoldable pub current_active : Shared p → ℕ
  current_active s = active_count s.active

  unfoldable pub is_running : Shared p → Bool
  is_running s = not (marked s.active)

  -- What `push_handler` does once `is_running` has answered `running`: it takes the lock then, and
  -- other threads may come in between.
  unfoldable pub extend_handlers : Bool → List FutureHandler → Shared p → Shared p
  extend_handlers running handler s =
      if running then record s { handlers = s.handlers ++ handler } else s

  -- `push_handler` where no other thread comes between its check and its lock.
  unfoldable pub push_handler : List FutureHandler → Shared p → Shared p
  unfolding is_running extend_handlers
  push_handler handler s = extend_handlers (is_running s) handler s

  unfoldable cancel_all : List FutureHandler → Shared p → Shared p
  cancel_all [] s = s
  cancel_all (h ∷ hs) s = cancel_all hs (cancel h s)

  unfoldable pub shutdown : Shared p → Shared p
  unfolding cancel_all
  shutdown s = cancel_all s.handlers (record s { active = mark s.active })
