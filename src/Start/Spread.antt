-- ===== src/Start/Spread.antt =====
-- How `start_with_arbiters` of src/builder.rs spreads actors over arbiters.
use mathlib.Core.List.{append_assoc, append-nil}
use actix_send.Prelude.{
  ℕ, zero, suc, ◌+◌, ◌-◌, ◌/◌, ◌%◌, ◌≤◌, ◌<◌, ◌≡◌, refl, ap, ◌∙◌, Bool, true, false, List, [], ◌∷◌,
  ◌++◌, Option, none, some, ◌==◌, if◌then◌else◌, length, length-append, Bool-cases, inl, inr, arith,
}
use actix_send.Builder.{Config}
use actix_send.Start.{Placed, Placement, place_one, place_loop, start_with_arbiters}
use actix_send.Start.Contexts.{replicate}

-- Actors `i`, `i + 1` and so on, `n` of them, dealt out to `len` arbiters in turn.
abbrev pub dealt : Bool → ℕ → ℕ → ℕ → List Placed
dealt allowed len i zero = []
dealt allowed len i (suc n) =
    record { arbiter = i % len; actor = i; receiver = if allowed then some i else none }
    ∷ dealt allowed len (suc i) n

module _ (config : Config) (len : ℕ) (some_arbiter : 0 < len) where
  deal : Bool → ℕ → ℕ → Placement → Placement
  deal allowed i n t = record {
    senders = t.senders ++ (if allowed then replicate n config.num else []);
    placed = t.placed ++ dealt allowed len i n;
  }

  place_one_lem :
      (i : ℕ) (t : Placement)
      → (config.allow_broadcast ≡ true → length t.senders ≡ i)
      → place_one config len i t ≡ some (deal config.allow_broadcast i 1 t)
  unfolding place_one deal
  place_one_lem i t e = elim (Bool-cases config.allow_broadcast) [
    | inl yes_ ↦ ground (arith, e yes_)
    | inr no_ ↦ ground (arith, append-nil t.senders)
  ]

  deal-deal :
      (allowed : Bool) (i n : ℕ) (t : Placement)
      → deal allowed (suc i) n (deal allowed i 1 t) ≡ deal allowed i (suc n) t
  unfolding deal
  deal-deal true i n t = simp append_assoc
  deal-deal false i n t = simp (append_assoc, append-nil)

  length-deal :
      (i : ℕ) (t : Placement)
      → (config.allow_broadcast ≡ true → length t.senders ≡ i)
      → config.allow_broadcast ≡ true
      → length (deal config.allow_broadcast i 1 t).senders ≡ suc i
  unfolding deal
  length-deal i t e allowed =
      rw allowed (omega (arith, length-append t.senders (config.num ∷ []), e allowed))

  place_loop_lem :
      (n i : ℕ) (t : Placement)
      → (config.allow_broadcast ≡ true → length t.senders ≡ i)
      → place_loop config len i n (some t) ≡ some (deal config.allow_broadcast i n t)
  unfolding place_loop
  place_loop_lem zero i t e =
      unfold deal in ground (arith, append-nil t.senders, append-nil t.placed)
  place_loop_lem (suc n) i t e =
      ap (place_loop config len (suc i) n) (place_one_lem i t e)
      ∙ place_loop_lem n (suc i) (deal config.allow_broadcast i 1 t) (length-deal i t e)
      ∙ ap some (deal-deal config.allow_broadcast i n t)

  -- Two or more actors are dealt out to the arbiters in turn, actor `i` to arbiter `i % len`, with the
  -- broadcast channels that `start` makes; the given index plays no part.
  pub start_with_arbiters_lem :
      (index : Option ℕ)
      → 2 ≤ config.num
      → start_with_arbiters config len index
        ≡ some (record {
          senders = if config.allow_broadcast then replicate config.num config.num else [];
          placed = dealt config.allow_broadcast len 0 config.num;
        })
  unfolding start_with_arbiters deal
  start_with_arbiters_lem index many = elim (Bool-cases (config.num == 1)) [
    | inl one ↦ absurd (ground arith)
    | inr other ↦
        rw other (place_loop_lem config.num 0 (record { senders = []; placed = [] }) (λ _. refl))
  ]

-- How many actors arbiter `a` has.
abbrev pub load : ℕ → List Placed → ℕ
load a [] = 0
load a (x ∷ xs) = (if x.arbiter == a then 1 else 0) + load a xs

-- Rounds of `len` actors that were complete for arbiter `a` when `i` actors had been dealt.
share : ℕ → ℕ → ℕ → ℕ
share len a i = (i + len - 1 - a) / len
