-- ===== src/Address/Life.antt =====
-- Histories of the addresses of one set: whoever owns an address may clone, downgrade or drop it,
-- or start a task with a sender of its own.
pub mod Counts
pub mod Shutdown
use actix_send.Prelude.{
  ℕ, zero, suc, ◌+◌, ◌-◌, Bool, true, false, List, [], ◌∷◌, Option, none, some, ltb, ◌==◌,
  if◌then◌else◌,
}
use actix_send.Builder.{Config}
use actix_send.Message.{Program}
use actix_send.Address.{
  Address, WeakAddress, Group, Upgraded, gone, panics, upgraded, new_address, clone, drop,
  downgrade, upgrade_weak, hold, release,
}

-- The owners: the live addresses, the weak addresses, the number of other owners of a sender, and
-- how often an upgrade has panicked.
pub record World (p : Program) : Type 0 where
  pub group : Group p
  pub addresses : List Address
  pub weaks : List WeakAddress
  pub holders : ℕ
  pub upgrade_panics : ℕ

-- Which owner acts is told by its position.
pub data Op : Type 0 where
  clones drops downgrades holds upgrades : ℕ → Op
  releases : Op

get_elem? : {A : Type 0} → List A → ℕ → Option A
get_elem? [] i = none
get_elem? (x ∷ xs) zero = some x
get_elem? (x ∷ xs) (suc i) = get_elem? xs i

remove_at : {A : Type 0} → List A → ℕ → List A
remove_at [] i = []
remove_at (x ∷ xs) zero = xs
remove_at (x ∷ xs) (suc i) = x ∷ remove_at xs i

target : Op → ℕ
target (clones i) = i
target (drops i) = i
target (downgrades i) = i
target (holds i) = i
target (upgrades i) = i
target releases = 0

module _ {p : Program} where
  pub launch : Config → World p
  launch config =
      let (group, address) = new_address config in
      record {
        group = group;
        addresses = address ∷ [];
        weaks = [];
        holders = 0;
        upgrade_panics = 0;
      }

  keep_upgraded : World p → Group p → Upgraded → World p
  keep_upgraded w g gone = record w { group = g }
  keep_upgraded w g panics = record w { group = g; upgrade_panics = w.upgrade_panics + 1 }
  keep_upgraded w g (upgraded a) = record w { group = g; addresses = a ∷ w.addresses }

  act : Op → Option Address → Option WeakAddress → ℕ → World p → World p
  unfolding keep_upgraded remove_at
  act (clones i) (some a) _ _ w =
      let (g, b) = clone a w.group in record w { group = g; addresses = b ∷ w.addresses }
  act (drops i) (some a) _ _ w = record w {
    group = drop a w.group;
    addresses = remove_at w.addresses i;
  }
  act (downgrades i) (some a) _ _ w = record w { weaks = downgrade a ∷ w.weaks }
  act (holds i) (some a) _ _ w = record w { group = hold w.group; holders = w.holders + 1 }
  act (upgrades i) _ (some k) _ w = let (g, r) = upgrade_weak k w.group in keep_upgraded w g r
  act releases _ _ (suc h) w = record w { group = release w.group; holders = h }
  act _ _ _ _ w = w

  -- An operation on an owner that is not there changes nothing.
  pub step : World p → Op → World p
  unfolding act target get_elem?
  step w o = act o (get_elem? w.addresses (target o)) (get_elem? w.weaks (target o)) w.holders w

  pub run : World p → List Op → World p
  run w [] = w
  run w (o ∷ os) = run (step w o) os
