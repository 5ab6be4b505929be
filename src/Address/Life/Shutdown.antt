-- ===== src/Address/Life/Shutdown.antt =====
-- What dropping the addresses of a set does, and what upgrading a weak address does.
use actix_send.Prelude.{
  ℕ, ◌+◌, ◌<◌, ◌≡◌, true, false, List, [], ◌∷◌, All, length, ltb, if◌then◌else◌, arith,
}
use actix_send.Builder.{Config}
use actix_send.Message.{Program}
use actix_send.Shared.{usize_mod}
use actix_send.Actor.{is_running}
use actix_send.Address.{WeakAddress, Upgraded, gone, panics, upgraded, upgrade_weak}
use actix_send.Address.Life.{World, Op, launch, run}
use actix_send.Address.Life.Counts.{Inv, run-launch-Inv}

-- No history of addresses of fewer than 2 ^ 64 - 1 operations shuts the set down, also when the
-- last address has been dropped.
pub drop_never_shuts_down :
    (p : Program) (config : Config) (os : List Op)
    → 1 + length os < usize_mod
    → is_running (run (launch {p = p} config) os).group.shared ≡ true
unfolding is_running
drop_never_shuts_down p config os few = let v = (run-launch-Inv p config os few).unmarked in rw v

-- In every history of fewer than 2 ^ 64 - 1 operations, the strong count of the channel's sender is
-- the number of live addresses and other owners of a sender, and the address counter that of live
-- addresses and panicked upgrades.
pub counts_owners :
    (p : Program) (config : Config) (os : List Op)
    → 1 + length os < usize_mod
    → let w = run (launch {p = p} config) os in
      (w.group.shared.tx_strong ≡ length w.addresses + w.holders)
      × (w.group.strong_count ≡ length w.addresses + w.upgrade_panics)
counts_owners p config os few = let v = run-launch-Inv p config os few in (v.senders, v.strong)

-- What an upgrade answers, by who is left.
abbrev pub upgrade_outcome : {p : Program} → World p → WeakAddress → Upgraded
upgrade_outcome w k =
    if ltb 0 (length w.addresses + w.holders)
    then if ltb 0 (length w.addresses)
      then upgraded (record { tx_subs = k.tx_subs; subs = false })
      else if k.tx_subs
      then panics
      else upgraded (record { tx_subs = false; subs = false })
    else gone

upgrade_weak-Inv :
    {p : Program} (n : ℕ) (w : World p) (k : WeakAddress)
    → Inv n w
    → k.tx_subs ≡ w.group.shared.config.allow_broadcast
    → (upgrade_weak k w.group).1 ≡ upgrade_outcome w k
unfolding upgrade_weak
upgrade_weak-Inv n w k v own = ground (arith, v.senders, v.groups)

upgrade_weak-All :
    {p : Program} (n : ℕ) (w : World p) (ks : List WeakAddress)
    → Inv n w
    → All (λ k. k.tx_subs ≡ w.group.shared.config.allow_broadcast) ks
    → All (λ k. (upgrade_weak k w.group).1 ≡ upgrade_outcome w k) ks
upgrade_weak-All n w [] v own = tt
upgrade_weak-All n w (k ∷ ks) v own =
    (upgrade_weak-Inv n w k v own.0, upgrade_weak-All n w ks v own.1)

-- In every history of fewer than 2 ^ 64 - 1 operations, upgrading any weak address fails exactly
-- when no address and no other owner of a sender is left. Where only other owners are left, it
-- panics if the set has broadcast senders. Otherwise it gives an address, and one that cannot
-- subscribe.
pub upgrade_weak-run :
    (p : Program) (config : Config) (os : List Op)
    → 1 + length os < usize_mod
    → let w = run (launch {p = p} config) os in
      All (λ k. (upgrade_weak k w.group).1 ≡ upgrade_outcome w k) w.weaks
upgrade_weak-run p config os few =
    let v = run-launch-Inv p config os few in
    let w = run (launch {p = p} config) os in
    upgrade_weak-All (1 + length os) w w.weaks v v.weak_owners
