-- ===== src/Shared.antt =====
-- The objects that the addresses and contexts of one set of actors share: `ActorState` of
-- src/actor.rs with its interval futures, the cells behind `FutureHandler`, the channel's senders
-- and the tasks that were spawned. `Lock`, `AsyncLock` and `RefCounter` of
-- src/util/smart_pointer.rs are a field here, which every holder of a clone reads and writes.
use actix_send.Prelude.{ℕ, ◌+◌, ◌-◌, ◌%◌, ◌^◌, Bool, false, List, [], Option, none}
use actix_send.Builder.{Config, Duration}
use actix_send.Message.{
  Program, AnyObjectContainer, FutureObject, ContextMessage, ActorContextState,
}

-- `usize` on a 64-bit target.
abbrev pub usize_mod : ℕ
usize_mod = 2 ^ 64

abbrev pub usize_max : ℕ
usize_max = usize_mod - 1

-- `fetch_add` and `fetch_sub` wrap around; so does `active - UNIT` in a release build.
abbrev pub wrapping_add : ℕ → ℕ → ℕ
wrapping_add a b = (a + b) % usize_mod

abbrev pub wrapping_sub : ℕ → ℕ → ℕ
wrapping_sub a b = (a + usize_mod - b) % usize_mod

-- `(bool, Option<Waker>)`, which a `FinisherFuture` shares with the handlers of its task.
pub record Cell : Type 0 where
  pub cancelled : Bool
  pub waker : Option ℕ

-- `tx` is the index that `attach_tx` gave it; the weak sender beside it is the set's own.
pub record FutureHandler : Type 0 where
  pub cell : ℕ
  pub tx : Option ℕ

module _ (p : Program) where
  -- Spawned tasks. `deliver` and `delayed` own a strong sender, `interval_loop` a weak one.
  pub data Task : Type 0 where
    deliver : ContextMessage p → Task
    delayed : ℕ → ContextMessage p → Duration → Task
    interval_loop : ℕ → ℕ → Duration → Task

  -- What leaves the set of actors: answers through oneshot channels, wake-ups, channel messages.
  pub data Effect : Type 0 where
    replied : ℕ → p.Reply → Effect
    replied_any : ℕ → AnyObjectContainer p.Value → Effect
    replied_state : ℕ → ActorContextState → Effect
    replied_handler : ℕ → FutureHandler → Effect
    woken : ℕ → Effect
    sent : ContextMessage p → Effect

  -- `tx_strong` is the strong count of the `Arc` around the channel's sender.
  pub record Shared : Type 0 where
    pub config : Config
    pub active : ℕ
    pub handlers : List FutureHandler
    pub next_key : ℕ
    pub futures : List (ℕ × FutureObject p)
    pub cells : ℕ → Cell
    pub next_cell : ℕ
    pub tx_strong : ℕ
    pub tasks : List Task
    pub log : List Effect

  -- `ActorState::new`, beside a channel with one sender.
  unfoldable pub new : Config → Shared
  new config = record {
    config = config;
    active = 0;
    handlers = [];
    next_key = 0;
    futures = [];
    cells = λ _. record { cancelled = false; waker = none };
    next_cell = 0;
    tx_strong = 1;
    tasks = [];
    log = [];
  }
