-- ===== src/Address/Life/Counts.antt =====
-- What the reference counts say, in every history of addresses.
use actix_send.Prelude.{
  ℕ, zero, suc, ◌+◌, ◌-◌, ◌≤◌, ◌<◌, ◌≡◌, ◌⊎◌, inl, inr, refl, ap, sym, ◌∙◌, Bool, false, List, [],
  ◌∷◌, Option, none, some, length, All, if◌then◌else◌, arith,
}
use mathlib.Core.Path.{subst}
use mathlib.Core.Option.{some-injective}
use actix_send.Builder.{Config}
use actix_send.Message.{Program}
use actix_send.Shared.{new, wrapping_add, usize_mod}
use actix_send.Actor.{marked}
use actix_send.Address.{
  Address, WeakAddress, Group, gone, panics, upgraded, new_address, clone, drop, downgrade,
  upgrade_weak, hold, release, one_if,
}
use actix_send.Address.Life.{
  World, Op, clones, drops, downgrades, holds, upgrades, releases, get_elem?, remove_at, launch,
  act, target, step, run,
}

-- What the three counters count, while fewer than `bound` owners have been made.
pub record Inv {p : Program} (bound : ℕ) (w : World p) : Type 0 where
  pub unmarked : marked w.group.shared.active ≡ false
  pub strong : w.group.strong_count ≡ length w.addresses + w.upgrade_panics
  pub senders : w.group.shared.tx_strong ≡ length w.addresses + w.holders
  pub groups :
      w.group.subs_strong
      ≡ (if w.group.shared.config.allow_broadcast then length w.addresses else 0)
  pub owners : All (λ a. a.tx_subs ≡ w.group.shared.config.allow_broadcast) w.addresses
  pub weak_owners : All (λ k. k.tx_subs ≡ w.group.shared.config.allow_broadcast) w.weaks
  pub small : length w.addresses + w.upgrade_panics ≤ bound

get_elem?-All :
    {A : Type 0} (P : A → Type 0) (xs : List A) (i : ℕ) {a : A}
    → All P xs
    → get_elem? xs i ≡ some a
    → P a
unfolding get_elem?
get_elem?-All P [] i h e = cc
get_elem?-All P (x ∷ xs) zero h e = subst P (some-injective _ _ e) h.0
get_elem?-All P (x ∷ xs) (suc i) h e = get_elem?-All P xs i h.1 e

length-remove_at :
    {A : Type 0} (xs : List A) (i : ℕ) {a : A}
    → get_elem? xs i ≡ some a
    → length (remove_at xs i) + 1 ≡ length xs
unfolding get_elem? remove_at
length-remove_at [] i e = cc
length-remove_at (x ∷ xs) zero e = omega arith
length-remove_at (x ∷ xs) (suc i) e = omega (arith, length-remove_at xs i e)

All-remove_at :
    {A : Type 0} (P : A → Type 0) (xs : List A) (i : ℕ) → All P xs → All P (remove_at xs i)
unfolding remove_at
All-remove_at P [] i h = tt
All-remove_at P (x ∷ xs) zero h = h.1
All-remove_at P (x ∷ xs) (suc i) h = (h.0, All-remove_at P xs i h.1)

launch-Inv : {p : Program} (config : Config) → Inv 1 (launch {p = p} config)
unfolding launch new_address new
launch-Inv config = record {
  unmarked = refl;
  strong = refl;
  senders = refl;
  groups = refl;
  owners = (refl, tt);
  weak_owners = tt;
  small = omega arith;
}

-- While an owner is counted, dropping an address counts it out and does not shut the set down.
drop_counts :
    {p : Program} (a : Address) (g : Group p)
    → 0 < g.strong_count
    → g.strong_count < usize_mod
    → drop a g ≡ record g {
      strong_count = g.strong_count - 1;
      shared = record (g.shared) { tx_strong = g.shared.tx_strong - 1 };
      subs_strong = g.subs_strong - one_if a.tx_subs;
    }
unfolding drop
drop_counts a g pos small = ground arith

upgrade_weak_cases :
    {p : Program} (k : WeakAddress) (g : Group p)
    → (upgrade_weak k g ≡ (g, gone))
      ⊎ (upgrade_weak k g ≡ (record g { strong_count = wrapping_add g.strong_count 1 }, panics))
      ⊎ (upgrade_weak k g ≡ (
        (clone (record { tx_subs = k.tx_subs; subs = false }) g).0,
        upgraded (record { tx_subs = k.tx_subs; subs = false }),
      ))
unfolding upgrade_weak clone
upgrade_weak_cases k g = ground arith

-- An address that is there carries the broadcast senders exactly if the set has them.
abbrev Owns : {p : Program} → World p → Bool → Type 0
Owns w b = b ≡ w.group.shared.config.allow_broadcast

module _ {p : Program} (n : ℕ) (w : World p) (few : suc n < usize_mod) (v : Inv n w) where
  clones-Inv :
      (i : ℕ) (a : Address) → Owns w a.tx_subs → Inv (suc n) (act (clones i) (some a) none 0 w)
  unfolding act clone one_if
  clones-Inv i a own = record {
    unmarked = v.unmarked;
    strong = ground (arith, v.strong, v.small);
    senders = ground (arith, v.senders);
    groups = ground (arith, v.groups);
    owners = (own, v.owners);
    weak_owners = v.weak_owners;
    small = ground (arith, v.small);
  }

  drops-Inv :
      (i : ℕ) (a : Address)
      → Owns w a.tx_subs
      → get_elem? w.addresses i ≡ some a
      → Inv (suc n) (act (drops i) (some a) none 0 w)
  unfolding act one_if
  drops-Inv i a own e =
      let fewer = length-remove_at w.addresses i e in
      let strong = v.strong in
      let same = drop_counts a w.group (omega arith) (omega (arith, v.small)) in
      rw same (record {
        unmarked = v.unmarked;
        strong = omega arith;
        senders = omega (arith, v.senders);
        groups = ground (arith, v.groups);
        owners = All-remove_at (λ b. Owns w b.tx_subs) w.addresses i v.owners;
        weak_owners = v.weak_owners;
        small = omega (arith, v.small);
      })

  later : (u : World p) → Inv n u → Inv (suc n) u
  later u i = record {
    unmarked = i.unmarked;
    strong = i.strong;
    senders = i.senders;
    groups = i.groups;
    owners = i.owners;
    weak_owners = i.weak_owners;
    small = omega (arith, i.small);
  }

  upgrades-Inv :
      (i : ℕ) (k : WeakAddress)
      → Owns w k.tx_subs
      → Inv (suc n) (act (upgrades i) none (some k) 0 w)
  unfolding act clone
  upgrades-Inv i k own = elim (upgrade_weak_cases k w.group) [
    | inl e ↦ rw (e, act) (later w v)
    | inr (inl e) ↦
        rw (e, act)
          (record {
            unmarked = v.unmarked;
            strong = ground (arith, v.strong, v.small);
            senders = v.senders;
            groups = v.groups;
            owners = v.owners;
            weak_owners = v.weak_owners;
            small = ground (arith, v.small);
          })
    | inr (inr e) ↦ rw (e, act) (clones-Inv i (record { tx_subs = k.tx_subs; subs = false }) own)
  ]

  moved :
      (g : Group p) (h : ℕ)
      → g.shared.active ≡ w.group.shared.active
      → g.shared.config ≡ w.group.shared.config
      → g.strong_count ≡ w.group.strong_count
      → g.subs_strong ≡ w.group.subs_strong
      → g.shared.tx_strong ≡ length w.addresses + h
      → Inv (suc n) (record w { group = g; holders = h })
  moved g h ea ec es eg et = record {
    unmarked = ap marked ea ∙ v.unmarked;
    strong = es ∙ v.strong;
    senders = et;
    groups = ground (arith, v.groups);
    owners = subst (λ c. All (λ b. b.tx_subs ≡ c.allow_broadcast) w.addresses) (sym ec) v.owners;
    weak_owners =
        subst (λ c. All (λ b. b.tx_subs ≡ c.allow_broadcast) w.weaks) (sym ec) v.weak_owners;
    small = omega (arith, v.small);
  }

  act-Inv :
      (o : Op) (a : Option Address) (k : Option WeakAddress) (h : ℕ)
      → get_elem? w.addresses (target o) ≡ a
      → get_elem? w.weaks (target o) ≡ k
      → w.holders ≡ h
      → Inv (suc n) (act o a k h w)
  unfolding act target hold release downgrade
  act-Inv (clones i) (some a) k h ea ek eh =
      clones-Inv i a (get_elem?-All (λ b. Owns w b.tx_subs) w.addresses i v.owners ea)
  act-Inv (drops i) (some a) k h ea ek eh =
      drops-Inv i a (get_elem?-All (λ b. Owns w b.tx_subs) w.addresses i v.owners ea) ea
  act-Inv (downgrades i) (some a) k h ea ek eh = record {
    unmarked = v.unmarked;
    strong = v.strong;
    senders = v.senders;
    groups = v.groups;
    owners = v.owners;
    weak_owners = (get_elem?-All (λ b. Owns w b.tx_subs) w.addresses i v.owners ea, v.weak_owners);
    small = omega (arith, v.small);
  }
  act-Inv (holds i) (some a) k h ea ek eh =
      moved (hold w.group) (w.holders + 1) refl refl refl refl (omega (arith, v.senders))
  act-Inv (upgrades i) a (some k) h ea ek eh =
      upgrades-Inv i k (get_elem?-All (λ b. Owns w b.tx_subs) w.weaks i v.weak_owners ek)
  act-Inv releases a k (suc h) ea ek eh =
      moved (release w.group) h refl refl refl refl (omega (arith, v.senders))
  act-Inv o a k h ea ek eh = later w v

step-Inv :
    {p : Program} (n : ℕ) (w : World p) (o : Op)
    → suc n < usize_mod
    → Inv n w
    → Inv (suc n) (step w o)
unfolding step
step-Inv n w o few v =
    act-Inv n w few v o (get_elem? w.addresses (target o)) (get_elem? w.weaks (target o)) w.holders
      refl refl refl

run-Inv :
    {p : Program} (n : ℕ) (w : World p) (os : List Op)
    → n + length os < usize_mod
    → Inv n w
    → Inv (n + length os) (run w os)
unfolding run
run-Inv n w [] few v = subst (λ k. Inv k w) (omega arith) v
run-Inv n w (o ∷ os) few v =
    subst (λ k. Inv k (run (step w o) os)) (omega arith)
      (run-Inv (suc n) (step w o) os (omega arith) (step-Inv n w o (omega arith) v))

pub run-launch-Inv :
    (p : Program) (config : Config) (os : List Op)
    → 1 + length os < usize_mod
    → Inv (1 + length os) (run (launch {p = p} config) os)
run-launch-Inv p config os few = run-Inv 1 (launch config) os few (launch-Inv config)
