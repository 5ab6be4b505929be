-- ===== src/Actor/Race/Invariant.antt =====
-- What every interleaving of `modify_active` keeps.
use actix_send.Prelude.{
  ℕ, ◌+◌, ◌*◌, ◌^◌, ◌≤◌, ◌<◌, ◌≡◌, refl, true, false, update, tally, tally-update, tally-le,
  weight-le-tally, update-All, tally-eq-zero, arith,
}
use actix_send.Actor.{marked, mark, add_unit, sub_unit}
use actix_send.Actor.Race.{
  Call, load, try, returned, Modify, read, refuse, swap, retry, Pc, starting, serving, stopping,
  Move, inc, serve, leave, dec, restart, System, init, Step, pick, shut, Reach, here, next,
}

-- A context counts from the return of its `inc_active` to that of its `dec_active`.
abbrev pub counted : Pc → ℕ
counted (starting (returned true)) = 1
counted serving = 1
counted (stopping load) = 1
counted (stopping (try _)) = 1
counted _ = 0

-- What a call remembers of the word: once it saw the marker, the marker is there.
abbrev pub Saw : ℕ → Call → Type 0
Saw word load = Unit
Saw word (try a) = marked a ≡ true → marked word ≡ true
Saw word (returned true) = Unit
Saw word (returned false) = marked word ≡ true

abbrev pub SawPc : ℕ → Pc → Type 0
SawPc word (starting c) = Saw word c
SawPc word serving = Unit
SawPc word (stopping c) = Saw word c

pub record Inv (n : ℕ) (s : System) : Type 0 where
  pub saw : (i : ℕ) → SawPc s.word (s.pc i)
  pub count : marked s.word ≡ false → s.word ≡ 2 * tally counted n s.pc

counted-le : (p : Pc) → counted p ≤ 1
counted-le (starting load) = omega arith
counted-le (starting (try _)) = omega arith
counted-le (starting (returned true)) = omega arith
counted-le (starting (returned false)) = omega arith
counted-le serving = omega arith
counted-le (stopping load) = omega arith
counted-le (stopping (try _)) = omega arith
counted-le (stopping (returned _)) = omega arith

pub tally-counted-le : (n : ℕ) (pc : ℕ → Pc) → tally counted n pc ≤ n
tally-counted-le = tally-le counted counted-le

Modify-marked :
    {f : ℕ → ℕ} {m w : ℕ} {c d : Call} → Modify f m c w d → marked m ≡ true → marked w ≡ true
Modify-marked read h = h
Modify-marked (refuse _) h = h
Modify-marked (swap g e) h = ground (arith, e, g)
Modify-marked (retry _) h = h

Modify-Saw : {f : ℕ → ℕ} {m w : ℕ} {c d : Call} → Modify f m c w d → Saw m c → Saw w d
Modify-Saw read h = λ e. e
Modify-Saw (refuse g) h = h g
Modify-Saw (swap g e) h = tt
Modify-Saw (retry _) h = λ e. e

-- No access takes the marker away.
pub Move-marked : {m w : ℕ} {p q : Pc} → Move m p w q → marked m ≡ true → marked w ≡ true
Move-marked (inc mv) h = Modify-marked mv h
Move-marked serve h = h
Move-marked leave h = h
Move-marked (dec mv) h = Modify-marked mv h
Move-marked restart h = h

Move-Saw : {m w : ℕ} {p q : Pc} → Move m p w q → SawPc m p → SawPc w q
Move-Saw (inc mv) h = Modify-Saw mv h
Move-Saw serve h = tt
Move-Saw leave h = tt
Move-Saw (dec mv) h = Modify-Saw mv h
Move-Saw restart h = tt

Saw-keep : (m w : ℕ) (c : Call) → (marked m ≡ true → marked w ≡ true) → Saw m c → Saw w c
Saw-keep m w load k h = tt
Saw-keep m w (try a) k h = λ e. k (h e)
Saw-keep m w (returned true) k h = tt
Saw-keep m w (returned false) k h = k h

SawPc-keep : (m w : ℕ) (p : Pc) → (marked m ≡ true → marked w ≡ true) → SawPc m p → SawPc w p
SawPc-keep m w (starting c) k h = Saw-keep m w c k h
SawPc-keep m w serving k h = tt
SawPc-keep m w (stopping c) k h = Saw-keep m w c k h

-- What an access adds to the word it adds to the count, as long as no marker is set.
inc-count :
    {m w : ℕ} {c d : Call}
    → Modify add_unit m c w d
    → marked w ≡ false
    → Saw m c
    → m + 2 < 2 ^ 64
    → w + 2 * counted (starting c) ≡ m + 2 * counted (starting d)
inc-count read u s h = omega arith
inc-count (refuse g) u s h = ground (arith, s g)
inc-count (swap g e) u s h = ground (arith, e)
inc-count (retry _) u s h = omega arith

dec-count :
    {m w : ℕ} {c d : Call}
    → Modify sub_unit m c w d
    → marked w ≡ false
    → Saw m c
    → m < 2 ^ 64
    → 2 * counted (stopping c) ≤ m
    → w + 2 * counted (stopping c) ≡ m + 2 * counted (stopping d)
dec-count read u s h b = omega arith
dec-count (refuse g) u s h b = ground (arith, s g)
dec-count (swap g e) u s h b = ground (arith, e)
dec-count (retry _) u s h b = omega arith

Move-count :
    {m w : ℕ} {p q : Pc}
    → Move m p w q
    → marked w ≡ false
    → SawPc m p
    → m + 2 < 2 ^ 64
    → 2 * counted p ≤ m
    → w + 2 * counted p ≡ m + 2 * counted q
Move-count (inc mv) u s h b = inc-count mv u s h
Move-count (serve {b = true}) u s h b = omega arith
Move-count (serve {b = false}) u s h b = ground (arith, s)
Move-count leave u s h b = omega arith
Move-count (dec mv) u s h b = dec-count mv u s (omega arith) b
Move-count restart u s h b = omega arith

unmarked_before :
    (m w : ℕ) → (marked m ≡ true → marked w ≡ true) → marked w ≡ false → marked m ≡ false
unmarked_before m w k u = ground (arith, k)

pub Step-Inv : {n : ℕ} {s t : System} → n < 2 ^ 62 → Step n s t → Inv n s → Inv n t
Step-Inv {n} {s} few (pick i {w} {p} lt mv) v = record {
  saw =
      update-All (SawPc w) s.pc i p (Move-Saw mv (v.saw i))
        (λ j. SawPc-keep s.word w (s.pc j) keep (v.saw j));
  count = count;
}
  where
    keep : marked s.word ≡ true → marked w ≡ true
    keep = Move-marked mv

    count : marked w ≡ false → w ≡ 2 * tally counted n (update s.pc i p)
    count u =
        let unmarked = unmarked_before s.word w keep u in
        let was = v.count unmarked in
        let few_counted = tally-counted-le n s.pc in
        let own = weight-le-tally counted n s.pc i lt in
        let step = Move-count mv u (v.saw i) (omega arith) (omega arith) in
        omega (arith, tally-update counted n s.pc i p lt)
Step-Inv {n} {s} few shut v = record {
  saw = λ j. SawPc-keep s.word (mark s.word) (s.pc j) (λ h. ground arith) (v.saw j);
  count = λ u. absurd (ground arith);
}

pub init-Inv : (n : ℕ) → Inv n init
init-Inv n = record {
  saw = λ i. tt;
  count = λ u. omega (arith, tally-eq-zero counted n (λ _. starting load) (λ _. refl));
}

pub Reach-Inv : {n : ℕ} {s : System} → n < 2 ^ 62 → Reach n s → Inv n s
Reach-Inv {n} few here = init-Inv n
Reach-Inv few (next r st) = Step-Inv few st (Reach-Inv few r)
