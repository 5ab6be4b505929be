-- ===== src/Context/Fleet.antt =====
-- All the contexts of a set of actors, each fed by its own events in any order: what
-- `current_active` of src/actor.rs says of them.
use actix_send.Prelude.{
  ℕ, ◌+◌, ◌*◌, ◌^◌, ◌≤◌, ◌<◌, ◌≡◌, refl, ap, ◌∙◌, Bool, false, List, [], ◌∷◌, ltb, if◌then◌else◌,
  update, tally, tally-update, tally-le, tally-eq-zero, weight-le-tally, Bool-cases, inl, inr,
  Option, arith,
}
use actix_send.Builder.{Config}
use actix_send.Message.{Program, ContextMessage}
use actix_send.Shared.{Shared, new, usize_mod}
use actix_send.Actor.{marked, inc_active, dec_active, current_active}
use actix_send.Context.{
  Phase, fresh, receiving, stopped, panicked, Control, proceed, break, panic, Event, begin, got,
  closed, ActorContext, new_context, handle_msg, finish, start, after_msg, dispatch, turn,
}
use actix_send.Context.Keeps.{handle_msg-keeps}

pub record Fleet (p : Program) : Type 0 where
  pub shared : Shared p
  pub contexts : ℕ → ActorContext p

-- A context counts once it has started, until its loop ends. A panic ends its task without a
-- `dec_active`.
abbrev pub phase_count : Phase → ℕ
phase_count receiving = 1
phase_count panicked = 1
phase_count fresh = 0
phase_count stopped = 0

abbrev pub counted : {p : Program} → ActorContext p → ℕ
counted c = phase_count c.phase

module _ {p : Program} where
  -- `ActorState::new` with contexts that have not started.
  unfoldable pub launch : Config → p.Actor → Fleet p
  launch config actor = record {
    shared = new p config;
    contexts = λ i. new_context i Option.none actor;
  }

-- Two units of `active` for each context that counts.
pub record Inv {p : Program} (n : ℕ) (f : Fleet p) : Type 0 where
  pub unmarked : marked f.shared.active ≡ false
  pub exact : f.shared.active ≡ 2 * tally counted n f.contexts

module _ {p : Program} (rx_alive : ℕ → Bool) (n : ℕ) where
  -- The task of context `i` takes a step; there are `n` contexts.
  unfoldable pub step : Fleet p → ℕ × Event p → Fleet p
  step f (i, e) =
      let (c, s) = turn rx_alive e (f.contexts i) f.shared in
      if ltb i n then record { shared = s; contexts = update f.contexts i c } else f

  unfoldable pub run : Fleet p → List (ℕ × Event p) → Fleet p
  run f [] = f
  run f (x ∷ xs) = run (step f x) xs

even_unmarked : (a k : ℕ) → a ≡ 2 * k → marked a ≡ false
even_unmarked a k e = ground arith

module _ {p : Program} (rx_alive : ℕ → Bool) where
  counted-finish :
      (c : ActorContext p) (s : Shared p)
      → marked s.active ≡ false
      → 2 ≤ s.active
      → s.active < usize_mod
      → let x = finish rx_alive c s in x.1.active + 2 ≡ s.active + 2 * counted x.0
  unfolding finish dec_active
  counted-finish c s u b small = ground arith

  counted-after_msg :
      (r : Control) (c : ActorContext p) (s : Shared p)
      → c.phase ≡ receiving
      → marked s.active ≡ false
      → 2 ≤ s.active
      → s.active < usize_mod
      → let x = after_msg rx_alive (r, c, s) in x.1.active + 2 ≡ s.active + 2 * counted x.0
  unfolding after_msg
  counted-after_msg proceed c s h u b small = ground arith
  counted-after_msg break c s h u b small = counted-finish c s u b small
  counted-after_msg panic c s h u b small = ground arith

  counted-got :
      (m : ContextMessage p) (c : ActorContext p) (s : Shared p)
      → c.phase ≡ receiving
      → marked s.active ≡ false
      → 2 ≤ s.active
      → s.active < usize_mod
      → let x = after_msg rx_alive (handle_msg rx_alive m c s) in
        x.1.active + 2 ≡ s.active + 2 * counted x.0
  counted-got m c s h u b small =
      let (same, set) = handle_msg-keeps rx_alive m c s in
      let r = handle_msg rx_alive m c s in
      let a = set.active in
      let after =
        counted-after_msg r.0 r.1 r.2 (same.phase ∙ h) (ap marked a ∙ u) (omega arith)
          (omega arith) in
      omega arith

  counted-dispatch :
      (ph : Phase) (e : Event p) (c : ActorContext p) (s : Shared p)
      → c.phase ≡ ph
      → marked s.active ≡ false
      → 2 * phase_count ph ≤ s.active
      → s.active + 2 < usize_mod
      → let x = dispatch rx_alive ph e c s in
        x.1.active + 2 * phase_count ph ≡ s.active + 2 * counted x.0
  unfolding dispatch
  counted-dispatch fresh begin c s h u b small = unfold start inc_active in ground arith
  counted-dispatch receiving (got m) c s h u b small =
      counted-got m c s h u (omega arith) (omega arith)
  counted-dispatch receiving closed c s h u b small =
      counted-finish c s u (omega arith) (omega arith)
  counted-dispatch ph e c s h u b small = ground arith

  counted-turn :
      (e : Event p) (c : ActorContext p) (s : Shared p)
      → marked s.active ≡ false
      → 2 * counted c ≤ s.active
      → s.active + 2 < usize_mod
      → let x = turn rx_alive e c s in x.1.active + 2 * counted c ≡ s.active + 2 * counted x.0
  unfolding turn
  counted-turn e c s u b small = counted-dispatch c.phase e c s refl u b small

  pub counted-le : (c : ActorContext p) → counted c ≤ 1
  counted-le c = ground arith

  step-Inv :
      (n : ℕ) (f : Fleet p) (x : ℕ × Event p) → n < 2 ^ 62 → Inv n f → Inv n (step rx_alive n f x)
  unfolding step
  step-Inv n f (i, e) few v = elim (Bool-cases (ltb i n)) [
    | inl below ↦ rw below (record {
      unmarked =
          even_unmarked x.1.active (tally counted n (update f.contexts i x.0))
            (exact (ground arith));
      exact = exact (ground arith);
    })
    | inr above ↦ rw above v
  ]
    where
      c : ActorContext p
      c = f.contexts i

      x : ActorContext p × Shared p
      x = turn rx_alive e c f.shared

      exact : i < n → x.1.active ≡ 2 * tally counted n (update f.contexts i x.0)
      exact lt =
          let few_counted = tally-le counted counted-le n f.contexts in
          let own = weight-le-tally counted n f.contexts i lt in
          let was = v.exact in
          let moved = counted-turn e c f.shared v.unmarked (omega arith) (omega arith) in
          omega (arith, tally-update counted n f.contexts i x.0 lt)

  pub run-Inv :
      (n : ℕ) (f : Fleet p) (xs : List (ℕ × Event p))
      → n < 2 ^ 62
      → Inv n f
      → Inv n (run rx_alive n f xs)
  unfolding run
  run-Inv n f [] few v = v
  run-Inv n f (x ∷ xs) few v = run-Inv n (step rx_alive n f x) xs few (step-Inv n f x few v)

  pub launch-Inv : (n : ℕ) (config : Config) (actor : p.Actor) → Inv n (launch {p = p} config actor)
  unfolding launch new new_context
  launch-Inv n config actor = record {
    unmarked = refl;
    exact =
        omega (arith, tally-eq-zero counted n (launch {p = p} config actor).contexts (λ _. refl));
  }

  -- After any history of fewer than 2 ^ 62 contexts, with restarts and closes and without a
  -- shutdown, `current_active` is the number of contexts that have
  -- started and whose loop has not ended, where one that panicked never ends its loop.
  pub current_active-run :
      (n : ℕ) (config : Config) (actor : p.Actor) (xs : List (ℕ × Event p))
      → n < 2 ^ 62
      → let f = run rx_alive n (launch config actor) xs in
        current_active f.shared ≡ tally counted n f.contexts
  unfolding current_active
  current_active-run n config actor xs few =
      let v = run-Inv n (launch config actor) xs few (launch-Inv n config actor) in
      let e = v.exact in omega arith
