-- ===== src/Address/Checks.antt =====
-- Instances of the theorems on src/address.rs.
use mathlib.Core.List.{Perm}
use mathlib.Core.List.Perm
use actix_send.Prelude.{
  ℕ, ◌+◌, ◌≡◌, refl, Bool, true, false, List, [], ◌∷◌, map, none, some, ◌==◌, All, length,
  if◌then◌else◌, arith,
}
use actix_send.Error.{ok}
use actix_send.Message.{ContextMessage}
use actix_send.Shared.{Shared}
use actix_send.Context.{ActorContext, new_context, receiving}
use actix_send.Context.Serving.{serve, reply_to}
use actix_send.Address.Send.Served.{send-serve}
use actix_send.Runtime.{Timed, elapsed, within}
use actix_send.Subscribe.{Subscriber, send_message}
use actix_send.Actor.{is_running}
use actix_send.Address.{upgrade_weak}
use actix_send.Address.Life.{World, Op, clones, drops, downgrades, holds, launch, run}
use actix_send.Address.Life.Shutdown.{
  drop_never_shuts_down, counts_owners, upgrade_weak-run, upgrade_outcome,
}
use actix_send.Address.Send.{send, send_subscribe}
use actix_send.Address.Send.Outcomes.{send_subscribe-perm, of_type}
use actix_send.Sample.{totals, restarting}

-- The only address is cloned and downgraded, a task starts, and both addresses are dropped.
abbrev all_dropped : List Op
all_dropped = clones 0 ∷ downgrades 0 ∷ holds 1 ∷ drops 0 ∷ drops 0 ∷ []

abbrev after : World totals
after = run (launch restarting) all_dropped

drop_never_shuts_down_example : is_running after.group.shared ≡ true
drop_never_shuts_down_example = drop_never_shuts_down totals restarting all_dropped (omega arith)

counts_owners_example :
    (after.group.shared.tx_strong ≡ length after.addresses + after.holders)
    × (after.group.strong_count ≡ length after.addresses + after.upgrade_panics)
counts_owners_example = counts_owners totals restarting all_dropped (omega arith)

upgrade_weak-run_example :
    All (λ k. (upgrade_weak k after.group).1 ≡ upgrade_outcome after k) after.weaks
upgrade_weak-run_example = upgrade_weak-run totals restarting all_dropped (omega arith)

-- Channel 2 is closed, channel 3 does not answer in time, the others take the message.
abbrev took : {M : Type 0} → ℕ → M → Timed Bool
took c m = if c == 3 then elapsed else within (if c == 2 then false else true)

abbrev subscribers : List Subscriber
subscribers = record { message = 7; channel = 1 } ∷ record { message = 8; channel = 3 } ∷ []

send_subscribe-perm_example :
    Perm
      (send_subscribe {V = ℕ} (λ _. true) took (some subscribers) 7 5 (λ xs. xs))
      (map (λ s. send_message {V = ℕ} (λ _. true) took s 5) (of_type 7 subscribers))
send_subscribe-perm_example =
    send_subscribe-perm {V = ℕ} (λ _. true) took subscribers 7 5 (λ xs. xs) Perm.refl

abbrev serving : ActorContext totals
serving = record (new_context 0 none 10) { phase = receiving }

abbrev shared : Shared totals
shared = (launch {p = totals} restarting).group.shared

-- The message 5 of caller 4 stands between one without a caller and one of caller 3.
send-serve_example :
    ((serve (λ _. true) ((none, 1) ∷ (some 4, 5) ∷ (some 3, 2) ∷ []) serving shared).0.actor ≡ 18)
    × (send
          (took {M = ContextMessage totals})
          4
          5
          (reply_to totals 4
            (serve (λ _. true) ((none, 1) ∷ (some 4, 5) ∷ (some 3, 2) ∷ []) serving shared).1.log)
          ok
        ≡ ok 16)
unfolding new_context
send-serve_example =
    send-serve {p = totals} took (λ _. true) 4 5 ((none, 1) ∷ []) ((some 3, 2) ∷ []) serving shared
      ok refl refl refl (refl, tt)
