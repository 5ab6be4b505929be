-- ===== src/Start.antt =====
-- `Builder::start` and `start_with_arbiters` of src/builder.rs, with `broadcast_receiver` of
-- src/actor.rs: the contexts, channels and threads that a set of actors begins with.
pub mod Contexts
pub mod Spread
mod Checks
use actix_send.Prelude.{
  ℕ, zero, suc, ◌+◌, ◌-◌, ◌%◌, Bool, true, false, List, [], ◌∷◌, ◌++◌, Option, none, some, ltb,
  ◌==◌, if◌then◌else◌, length,
}
use actix_send.Builder.{Config}
use actix_send.Message.{Program}
use actix_send.Shared.{Shared, new}
use actix_send.Context.{ActorContext, new_context}

-- `broadcast_receiver`: the senders afterwards, each the capacity of its bounded channel, and the
-- receiver, which is the position of its sender.
pub broadcast_receiver : Config → List ℕ → ℕ → List ℕ × Option ℕ
broadcast_receiver config senders num =
    if config.allow_broadcast then (senders ++ num ∷ [], some (length senders)) else (senders, none)

pub record Started (p : Program) : Type 0 where
  pub shared : Shared p
  pub broadcast_senders : List ℕ
  pub contexts : List (ActorContext p)

module _ (p : Program) (build : ℕ → p.Actor) where
  -- One round of the loop of `start`, for actor `i`. `build i` is what the builder closure makes.
  start_one : Config → ℕ → Started p → Started p
  unfolding broadcast_receiver
  start_one config i t =
      let (senders, receiver) = broadcast_receiver config t.broadcast_senders config.num in
      record t {
        broadcast_senders = senders;
        contexts = t.contexts ++ new_context i receiver (build i) ∷ [];
      }

  start_loop : Config → ℕ → ℕ → Started p → Started p
  unfolding start_one
  start_loop config i zero t = t
  start_loop config i (suc n) t = start_loop config (suc i) n (start_one config i t)

  -- `Builder::start`. The branch for one actor is the loop's only round.
  pub start : Config → Started p
  unfolding start_one start_loop
  start config =
      let none_yet : Started p = record {
        shared = new p config;
        broadcast_senders = [];
        contexts = [];
      } in
      if config.num == 1
      then start_one config 0 none_yet
      else start_loop config 0 config.num none_yet

-- An actor on a thread: the arbiter that runs it, and its broadcast receiver.
pub record Placed : Type 0 where
  pub arbiter : ℕ
  pub actor : ℕ
  pub receiver : Option ℕ

pub record Placement : Type 0 where
  pub senders : List ℕ
  pub placed : List Placed

-- `arbiters.get(index).expect(…)`: `none` is the panic.
pub get_arbiter : ℕ → ℕ → Option ℕ
get_arbiter len index = if ltb index len then some index else none

-- `i % len`, which panics for no arbiters.
pub index_of : ℕ → ℕ → Option ℕ
index_of i len = if len == 0 then none else some (i % len)

-- One round of the loop of `start_with_arbiters`.
place_one : Config → ℕ → ℕ → Placement → Option Placement
unfolding broadcast_receiver get_arbiter index_of
place_one config len i t =
    let (senders, receiver) = broadcast_receiver config t.senders config.num in
    elim (index_of i len) [
      | none ↦ none
      | some index ↦ elim (get_arbiter len index) [
        | none ↦ none
        | some a ↦ some (record {
          senders = senders;
          placed = t.placed ++ record { arbiter = a; actor = i; receiver = receiver } ∷ [];
        })
      ]
    ]

place_loop : Config → ℕ → ℕ → ℕ → Option Placement → Option Placement
unfolding place_one
place_loop config len i zero t = t
place_loop config len i (suc n) none = none
place_loop config len i (suc n) (some t) =
    place_loop config len (suc i) n (place_one config len i t)

abbrev pub or_zero : Option ℕ → ℕ
or_zero none = 0
or_zero (some i) = i

-- `Builder::start_with_arbiters` on `len` arbiters: a single actor goes to the arbiter at `index`,
-- by default the first, and gets no broadcast receiver.
pub start_with_arbiters : Config → ℕ → Option ℕ → Option Placement
unfolding place_one place_loop get_arbiter
start_with_arbiters config len index =
    let nothing : Placement = record { senders = []; placed = [] } in
    if config.num == 1
    then elim (get_arbiter len (or_zero index)) [
      | none ↦ none
      | some a ↦ some (record {
        senders = [];
        placed = record { arbiter = a; actor = 0; receiver = none } ∷ [];
      })
    ]
    else place_loop config len 0 config.num (some nothing)
