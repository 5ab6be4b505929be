-- ===== src/Context/Isolation.antt =====
-- Contexts of src/context.rs that take messages in any interleaving: each serves its own as if alone.
use actix_send.Prelude.{
  ℕ, ◌<◌, ◌≡◌, refl, ap, ◌∙◌, Bool, true, List, [], ◌∷◌, All, ltb, ◌==◌, if◌then◌else◌, Bool-cases,
  inl, inr, update, update-All, arith,
}
use actix_send.Message.{Program}
use actix_send.Context.{ActorContext, receiving, Event, got}
use actix_send.Context.Fleet.{Fleet, step, run}
use actix_send.Context.Serving.{Sent, message_of, actor_after, answers, turn_lem}

-- The entries of context `j` alone.
abbrev pub of_context {ℓ} : {A : Type ℓ} → ℕ → List (ℕ × A) → List A
of_context j [] = []
of_context j ((i, m) ∷ xs) = let rest = of_context j xs in if i == j then m ∷ rest else rest

module _ {p : Program} where
  -- The messages as events.
  abbrev pub events : List (ℕ × Sent p) → List (ℕ × Event p)
  events [] = []
  events ((i, m) ∷ xs) = (i, got (message_of p m)) ∷ events xs

module _ {p : Program} (rx_alive : ℕ → Bool) (n : ℕ) where
  abbrev served : ActorContext p → List (Sent p) → ActorContext p
  served c ms = record c { actor = actor_after p ms c.actor }

  step_lem :
      (f : Fleet p) (i : ℕ) (m : Sent p)
      → i < n
      → (f.contexts i).phase ≡ receiving
      → step rx_alive n f (i, got (message_of p m)) ≡ record {
        shared = record f.shared {
          log = answers rx_alive m.0 (p.handle m.1 (f.contexts i).actor).0 f.shared.log;
        };
        contexts = update f.contexts i (served (f.contexts i) (m ∷ []));
      }
  unfolding step
  step_lem f i m below on =
      let low : ltb i n ≡ true = ground (arith, below) in
      rw (low, turn_lem rx_alive m (f.contexts i) f.shared on) refl

  update-served :
      (f : Fleet p) (i j : ℕ) (m : Sent p) (xs : List (ℕ × Sent p))
      → served (update f.contexts i (served (f.contexts i) (m ∷ [])) j) (of_context j xs)
        ≡ served (f.contexts j) (of_context j ((i, m) ∷ xs))
  update-served f i j m xs = elim (Bool-cases (i == j)) [
    | inl q ↦ let same : i ≡ j = ground (arith, q) in rw (q, same) refl
    | inr q ↦ rw q refl
  ]

  -- Contexts that receive take messages with and without a caller, in any interleaving. Each actor
  -- ends as if it had handled the messages of its own context alone and in their order.
  pub run-actor_after :
      (f : Fleet p) (xs : List (ℕ × Sent p))
      → ((j : ℕ) → (f.contexts j).phase ≡ receiving)
      → All (λ x. x.0 < n) xs
      → (j : ℕ)
      → (run rx_alive n f (events xs)).contexts j
        ≡ record (f.contexts j) { actor = actor_after p (of_context j xs) (f.contexts j).actor }
  unfolding run
  run-actor_after f [] on below j = refl
  run-actor_after f ((i, m) ∷ xs) on below j =
      let g = step rx_alive n f (i, got (message_of p m)) in
      let e = step_lem f i m below.0 (on i) in
      let receives : (k : ℕ) → (g.contexts k).phase ≡ receiving = λ k.
        ap (λ (h : Fleet p). (h.contexts k).phase) e
        ∙ update-All (λ (c : ActorContext p). c.phase ≡ receiving) f.contexts i
            (served (f.contexts i) (m ∷ [])) (on i) on k in
      run-actor_after g xs receives below.1 j
      ∙ ap (λ (h : Fleet p). served (h.contexts j) (of_context j xs)) e
      ∙ update-served f i j m xs
