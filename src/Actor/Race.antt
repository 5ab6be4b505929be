-- ===== src/Actor/Race.antt =====
-- `ActorState::modify_active` of src/actor.rs under every interleaving: `n` contexts that run its
-- compare-exchange loop, and addresses that set the marker at any time.
pub mod Invariant
pub mod Count
use actix_send.Prelude.{ℕ, ◌<◌, ◌≡◌, Bool, true, false, update}
use actix_send.Actor.{marked, mark, add_unit, sub_unit}

-- Where a call of `modify_active` stands: before its load, in its loop with the value last seen, or
-- returned.
pub data Call : Type 0 where
  load : Call
  try : ℕ → Call
  returned : Bool → Call

-- One atomic access of the call that changes the word by `f`. `compare_exchange_weak` may fail
-- though the word is as expected, so `retry` does not say that they differ.
pub data Modify (f : ℕ → ℕ) (word : ℕ) : Call → ℕ → Call → Type 0 where
  read : Modify f word load word (try word)
  refuse : {a : ℕ} → marked a ≡ true → Modify f word (try a) word (returned false)
  swap : {a : ℕ} → marked a ≡ false → word ≡ a → Modify f word (try a) (f a) (returned true)
  retry : {a : ℕ} → marked a ≡ false → Modify f word (try a) word (try word)

-- A context: in `inc_active`, in its receiving loop, in `dec_active`.
pub data Pc : Type 0 where
  starting : Call → Pc
  serving : Pc
  stopping : Call → Pc

-- `spawn_loop` ignores what `inc_active` returns, and starts again only if `dec_active` returned
-- true.
pub data Move (word : ℕ) : Pc → ℕ → Pc → Type 0 where
  inc : {c d : Call} {w : ℕ} → Modify add_unit word c w d → Move word (starting c) w (starting d)
  serve : {b : Bool} → Move word (starting (returned b)) word serving
  leave : Move word serving word (stopping load)
  dec : {c d : Call} {w : ℕ} → Modify sub_unit word c w d → Move word (stopping c) w (stopping d)
  restart : Move word (stopping (returned true)) word (starting load)

pub record System : Type 0 where
  pub word : ℕ
  pub pc : ℕ → Pc

-- `ActorState::new`, with every context still to start.
abbrev pub init : System
init = record { word = 0; pc = λ _. starting load }

pub data Step (n : ℕ) (s : System) : System → Type 0 where
  pick :
      (i : ℕ) {w : ℕ} {p : Pc}
      → i < n
      → Move s.word (s.pc i) w p
      → Step n s (record { word = w; pc = update s.pc i p })
  shut : Step n s (record s { word = mark s.word })

pub data Reach (n : ℕ) : System → Type 0 where
  here : Reach n init
  next : {s t : System} → Reach n s → Step n s t → Reach n t
