-- ===== src/Actor/Race/Count.antt =====
-- What the counter of active actors says in every state that the interleavings reach.
use actix_send.Prelude.{
  ℕ, ◌+◌, ◌^◌, ◌<◌, ◌≡◌, refl, ◌⊎◌, inl, inr, Bool, true, false, tally, weight-le-tally, ap, arith,
}
use mathlib.Core.Path.{subst}
use actix_send.Actor.{marked, sub_unit, active_count, modify_active}
use actix_send.Actor.Race.{
  Call, try, returned, Modify, read, refuse, swap, retry, Pc, starting, stopping, System, Step,
  pick, shut, Reach, Move, inc, serve, leave, dec, restart,
}
use actix_send.Actor.Race.Invariant.{counted, Saw, SawPc, Reach-Inv, tally-counted-le}

-- With fewer than 2 ^ 62 contexts, in every reachable state without the marker, the count is
-- exactly the number of contexts whose `inc_active` has returned and whose `dec_active` has not.
pub active_count-tally :
    {n : ℕ} {s : System}
    → n < 2 ^ 62
    → Reach n s
    → marked s.word ≡ false
    → active_count s.word ≡ tally counted n s.pc
active_count-tally few r u = omega (arith, (Reach-Inv few r).count u)

Modify-modify_active :
    {f : ℕ → ℕ} {m w : ℕ} {c d : Call} (b : Bool)
    → Modify f m c w d
    → d ≡ returned b
    → Saw m c
    → (b, w) ≡ modify_active f m
unfolding modify_active
Modify-modify_active b read e h = cc
Modify-modify_active b (refuse g) e h = ground (arith, h g)
Modify-modify_active b (swap g q) e h = ground arith
Modify-modify_active b (retry _) e h = cc

-- With fewer than 2 ^ 62 contexts, in every reachable state, the access by which a context's call
-- returns has the effect and the result of `modify_active` run alone on the word of that moment.
pub Reach-modify_active :
    {n : ℕ} {s : System}
    → n < 2 ^ 62
    → Reach n s
    → (i : ℕ) {f : ℕ → ℕ} {w : ℕ} {c : Call} (b : Bool)
    → (s.pc i ≡ starting c) ⊎ (s.pc i ≡ stopping c)
    → Modify f s.word c w (returned b)
    → (b, w) ≡ modify_active f s.word
Reach-modify_active {s} few r i b (inl e) mv =
    Modify-modify_active b mv refl (subst (SawPc s.word) e ((Reach-Inv few r).saw i))
Reach-modify_active {s} few r i b (inr e) mv =
    Modify-modify_active b mv refl (subst (SawPc s.word) e ((Reach-Inv few r).saw i))

Move-frozen : {m w : ℕ} {p q : Pc} → Move m p w q → marked m ≡ true → w ≡ m
Move-frozen (inc read) e = refl
Move-frozen (inc (refuse _)) e = refl
Move-frozen (inc (swap g q)) e = ground arith
Move-frozen (inc (retry _)) e = refl
Move-frozen serve e = refl
Move-frozen leave e = refl
Move-frozen (dec read) e = refl
Move-frozen (dec (refuse _)) e = refl
Move-frozen (dec (swap g q)) e = ground arith
Move-frozen (dec (retry _)) e = refl
Move-frozen restart e = refl

-- Once the marker is set, no step of any context or address changes the word again.
pub Step-frozen : {n : ℕ} {s t : System} → Step n s t → marked s.word ≡ true → t.word ≡ s.word
Step-frozen (pick i lt mv) e = Move-frozen mv e
Step-frozen shut e = ground arith

-- With fewer than 2 ^ 62 contexts, in every reachable state, a `dec_active` whose exchange would
-- succeed on a word without the marker takes exactly one actor off: the subtraction does not wrap
-- around.
pub dec_active_no_wrap :
    {n : ℕ} {s : System}
    → n < 2 ^ 62
    → Reach n s
    → (i a : ℕ) → i < n
    → s.pc i ≡ stopping (try a)
    → marked a ≡ false
    → s.word ≡ a
    → active_count (sub_unit a) + 1 ≡ active_count s.word
dec_active_no_wrap {n} {s} few r i a lt e u same =
    let own = weight-le-tally counted n s.pc i lt in
    omega (arith, (Reach-Inv few r).count (ground arith), tally-counted-le n s.pc, ap counted e)
