-- ===== src/Prelude/Family.antt =====
-- Families indexed by number, such as the threads of a system: one entry changed, entries counted.
use Prim.Native.Nat.{ℕ, zero, suc, ◌+◌, ◌≤◌, ◌<◌}
use mathlib.Core.Path.{◌≡◌, refl}
use mathlib.Core.Logic.{◌⊎◌, inl, inr}
use native.Mathlib.Omega.{arith}
use actix_send.Prelude.Tests.{Bool-cases, ◌==◌, if◌then◌else◌}

abbrev pub update {ℓ} : {A : Type ℓ} → (ℕ → A) → ℕ → A → ℕ → A
update f i a j = if i == j then a else f j

module _ {ℓ} {A : Type ℓ} (weight : A → ℕ) where
  -- The weights of the entries below `n`, added up.
  pub tally : ℕ → (ℕ → A) → ℕ
  tally zero f = 0
  tally (suc n) f = weight (f n) + tally n f

  tally-update_above :
      (n : ℕ) (f : ℕ → A) (i : ℕ) (a : A) → n ≤ i → tally n (update f i a) ≡ tally n f
  unfolding tally
  tally-update_above zero f i a h = refl
  tally-update_above (suc n) f i a h = ground (arith, tally-update_above n f i a)

  below_cases : (i n : ℕ) → i < suc n → (i < n) ⊎ (i ≡ n)
  below_cases i n h = omega arith

  pub tally-update :
      (n : ℕ) (f : ℕ → A) (i : ℕ) (a : A)
      → i < n
      → tally n (update f i a) + weight (f i) ≡ tally n f + weight a
  unfolding tally
  tally-update zero f i a h = absurd (omega arith)
  tally-update (suc n) f i a h = elim (below_cases i n h) [
    | inl lt ↦ ground (arith, tally-update n f i a lt)
    | inr e ↦ ground (arith, tally-update_above n f i a)
  ]

  pub tally-le : ((a : A) → weight a ≤ 1) → (n : ℕ) (f : ℕ → A) → tally n f ≤ n
  unfolding tally
  tally-le small zero f = omega arith
  tally-le small (suc n) f = omega (arith, small (f n), tally-le small n f)

  pub tally-eq-zero : (n : ℕ) (f : ℕ → A) → ((i : ℕ) → weight (f i) ≡ 0) → tally n f ≡ 0
  unfolding tally
  tally-eq-zero zero f e = refl
  tally-eq-zero (suc n) f e = omega (arith, e n, tally-eq-zero n f e)

  pub weight-le-tally : (n : ℕ) (f : ℕ → A) (i : ℕ) → i < n → weight (f i) ≤ tally n f
  unfolding tally
  weight-le-tally zero f i h = absurd (omega arith)
  weight-le-tally (suc n) f i h = elim (below_cases i n h) [
    | inl lt ↦ omega (arith, weight-le-tally n f i lt)
    | inr e ↦ rw e (omega arith)
  ]

pub update-All {ℓ κ} :
    {A : Type ℓ} (P : A → Type κ) (f : ℕ → A) (i : ℕ) (a : A)
    → P a
    → ((j : ℕ) → P (f j))
    → (j : ℕ) → P (update f i a j)
update-All P f i a new old j = elim (Bool-cases (i == j)) [
  | inl e ↦ rw e new
  | inr e ↦ rw e (old j)
]
