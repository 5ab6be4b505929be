-- ===== src/Context/Lifecycle.antt =====
-- How a context ends and starts again: the loop of `spawn_loop` in src/context.rs.
use actix_send.Prelude.{
  ℕ, zero, suc, ◌+◌, ◌%◌, ◌≤◌, ◌<◌, ◌≡◌, refl, ◌∙◌, Bool, true, false, ◌∷◌, arith,
}
use actix_send.Message.{Program, manual_shut_down}
use actix_send.Shared.{Shared, replied_state, wrapping_add, usize_mod}
use actix_send.Actor.{marked, inc_active, dec_active, active_count}
use actix_send.Context.{
  receiving, stopped, begin, got, closed, ActorContext, state, finish, handle_msg, turn, answer,
}

module _ {p : Program} (rx_alive : ℕ → Bool) where
  open p use {on_start, on_stop}

  -- The end of the channel, then the first step of the task that `spawn_loop` spawns for the restart.
  pub close_and_begin : ActorContext p × Shared p → ActorContext p × Shared p
  close_and_begin (c, s) = let (c', s') = turn rx_alive closed c s in turn rx_alive begin c' s'

  pub rounds : ℕ → ActorContext p × Shared p → ActorContext p × Shared p
  rounds zero x = x
  rounds (suc n) x = rounds n (close_and_begin x)

  -- A context that restarts on errors and was not shut down by hand.
  pub record Restarts (c : ActorContext p) (s : Shared p) : Type 0 where
    pub receives : c.phase ≡ receiving
    pub restart : s.config.restart_on_err ≡ true
    pub by_hand : c.manual_shutdown ≡ false
    pub unmarked : marked s.active ≡ false
    pub counted : 2 ≤ s.active
    pub small : s.active < usize_mod

  close_and_begin_lem :
      (c : ActorContext p) (s : Shared p)
      → Restarts c s
      → let x = close_and_begin (c, s) in
        Restarts x.0 x.1
        × (x.0.generation ≡ wrapping_add c.generation 1)
        × (x.0.actor ≡ on_start c.actor)
        × (x.1.active ≡ s.active)
  unfolding close_and_begin turn inc_active dec_active
  close_and_begin_lem c s r = ground arith

  -- A context that restarts on errors, was not shut down by hand and is counted without the marker
  -- does not end at the end of the channel: after any number of times that it finds the channel
  -- closed, it has started again as often, it receives again and counts as active.
  pub closed_again_and_again :
      (n : ℕ) (c : ActorContext p) (s : Shared p)
      → Restarts c s
      → let x = rounds n (c, s) in
        (x.0.phase ≡ receiving)
        × (x.0.generation % usize_mod ≡ (c.generation + n) % usize_mod)
        × (x.1.active ≡ s.active)
  unfolding rounds
  closed_again_and_again zero c s r = (r.receives, omega arith, refl)
  closed_again_and_again (suc n) c s r =
      let (again, generation, _, active) = close_and_begin_lem c s r in
      let x = close_and_begin (c, s) in
      let (receives, counted, same) = closed_again_and_again n x.0 x.1 again in
      (receives, omega arith, same ∙ active)

  -- `close_one` whose caller still waits, at a receiving context that is counted without the
  -- marker: the context answers with its id and generation, is counted out and stops for good, also
  -- where it would restart on errors.
  pub manual_shut_down_stops :
      (tx : ℕ) (c : ActorContext p) (s : Shared p)
      → rx_alive tx ≡ true
      → c.phase ≡ receiving
      → marked s.active ≡ false
      → 2 ≤ s.active
      → s.active < usize_mod
      → let x = turn rx_alive (got (manual_shut_down tx)) c s in
        (x.0.phase ≡ stopped)
        × (x.0.generation ≡ c.generation)
        × (x.1.log ≡ replied_state tx (state c) ∷ s.log)
        × (active_count x.1.active + 1 ≡ active_count s.active)
  unfolding turn handle_msg finish dec_active answer
  manual_shut_down_stops tx c s alive r u two small = ground arith

  -- `close_one` whose caller has given up (its timeout ran out): nothing changes at all.
  pub manual_shut_down_given_up :
      (tx : ℕ) (c : ActorContext p) (s : Shared p)
      → rx_alive tx ≡ false
      → turn rx_alive (got (manual_shut_down tx)) c s ≡ (c, s)
  unfolding turn handle_msg
  manual_shut_down_given_up tx c s gone = ground arith
