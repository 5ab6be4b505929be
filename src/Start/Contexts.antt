-- ===== src/Start/Contexts.antt =====
-- What a set of actors begins with after `Builder::start`.
use mathlib.Core.Path.{subst}
use mathlib.Core.List.{append_assoc, append-nil}
use actix_send.Prelude.{
  ℕ, zero, suc, ◌≡◌, refl, ap, sym, ◌∙◌, Bool, true, false, List, [], ◌∷◌, ◌++◌, none, some, ◌==◌,
  if◌then◌else◌, length, length-append, Bool-cases, ==_iff, inl, inr, arith,
}
use actix_send.Builder.{Config}
use actix_send.Message.{Program}
use actix_send.Shared.{new}
use actix_send.Context.{ActorContext, new_context}
use actix_send.Start.{Started, start, start_one, start_loop}

-- `n` copies.
abbrev pub replicate : {A : Type 0} → ℕ → A → List A
replicate zero a = []
replicate (suc n) a = a ∷ replicate n a

module _ (p : Program) (build : ℕ → p.Actor) (config : Config) where
  -- The contexts of actors `i`, `i + 1` and so on, `n` of them: generation 0, and with a broadcast
  -- channel each, of the actor's own number, if there are broadcasts.
  abbrev pub numbered : Bool → ℕ → ℕ → List (ActorContext p)
  numbered allowed i zero = []
  numbered allowed i (suc n) =
      new_context i (if allowed then some i else none) (build i) ∷ numbered allowed (suc i) n

  abbrev Grows : Bool → ℕ → ℕ → Started p → Started p → Type 0
  Grows allowed i n t u =
      (u.contexts ≡ t.contexts ++ numbered allowed i n)
      × (u.broadcast_senders
          ≡ t.broadcast_senders ++ (if allowed then replicate n config.num else []))

  Grows-trans :
      (allowed : Bool) (i n : ℕ) (t u v : Started p)
      → Grows allowed i 1 t u
      → Grows allowed (suc i) n u v
      → Grows allowed i (suc n) t v
  Grows-trans true i n t u v g h = (
    h.0 ∙ ap (λ l. l ++ numbered true (suc i) n) g.0 ∙ append_assoc t.contexts _ _,
    h.1 ∙ ap (λ l. l ++ replicate n config.num) g.1 ∙ append_assoc t.broadcast_senders _ _,
  )
  Grows-trans false i n t u v g h = (
    h.0 ∙ ap (λ l. l ++ numbered false (suc i) n) g.0 ∙ append_assoc t.contexts _ _,
    h.1 ∙ append-nil _ ∙ g.1,
  )

  start_one-Grows :
      (i : ℕ) (t : Started p)
      → (config.allow_broadcast ≡ true → length t.broadcast_senders ≡ i)
      → Grows config.allow_broadcast i 1 t (start_one p build config i t)
  unfolding start_one
  start_one-Grows i t e = elim (Bool-cases config.allow_broadcast) [
    | inl yes_ ↦ ground (arith, e yes_)
    | inr no_ ↦ ground (arith, append-nil t.broadcast_senders)
  ]

  senders-start_one :
      (i : ℕ) (t : Started p)
      → (config.allow_broadcast ≡ true → length t.broadcast_senders ≡ i)
      → config.allow_broadcast ≡ true
      → length (start_one p build config i t).broadcast_senders ≡ suc i
  senders-start_one i t e allowed =
      ap length (start_one-Grows i t e).1
      ∙ (rw allowed (omega (arith, length-append t.broadcast_senders (config.num ∷ []), e allowed)))

  start_loop-Grows :
      (n i : ℕ) (t : Started p)
      → (config.allow_broadcast ≡ true → length t.broadcast_senders ≡ i)
      → Grows config.allow_broadcast i n t (start_loop p build config i n t)
  unfolding start_loop
  start_loop-Grows zero i t e =
      ground (arith, append-nil t.contexts, append-nil t.broadcast_senders)
  start_loop-Grows (suc n) i t e =
      Grows-trans config.allow_broadcast i n t (start_one p build config i t)
        (start_loop p build config (suc i) n (start_one p build config i t)) (start_one-Grows i t e)
        (start_loop-Grows n (suc i) (start_one p build config i t) (senders-start_one i t e))

  -- `start` makes `num` contexts, numbered from 0, in generation 0. If broadcasts are allowed, context
  -- `i` also receives from broadcast channel `i`, and there are `num` broadcast senders, each of
  -- capacity `num`; if not, there are none.
  pub start_lem :
      ((start p build config).contexts ≡ numbered config.allow_broadcast 0 config.num)
      × ((start p build config).broadcast_senders
          ≡ (if config.allow_broadcast then replicate config.num config.num else []))
  unfolding start
  start_lem = elim (Bool-cases (config.num == 1)) [
    | inl one ↦ rw one (
        subst (λ k. Grows config.allow_broadcast 0 k none_yet (start_one p build config 0 none_yet))
          (sym ((==_iff config.num 1).0 one)) (start_one-Grows 0 none_yet (λ _. refl)))
    | inr other ↦ rw other (start_loop-Grows config.num 0 none_yet (λ _. refl))
  ]
    where
      none_yet : Started p
      none_yet = record { shared = new p config; broadcast_senders = []; contexts = [] }
