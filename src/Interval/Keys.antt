-- ===== src/Interval/Keys.antt =====
-- Keys of the interval futures of src/interval.rs: never given twice, and found again.
use actix_send.Prelude.{
  ℕ, suc, ◌≤◌, ◌<◌, ◌≡◌, refl, List, [], ◌∷◌, none, some, ◌==◌, if◌then◌else◌, arith,
}
use actix_send.Message.{Program, FutureObject}
use actix_send.Shared.{Shared, usize_max, usize_mod}
use actix_send.Interval.{get, put, delete, insert, remove_key}

-- Every key that was given is below `n`.
abbrev pub Below {ℓ} : {V : Type ℓ} → ℕ → List (ℕ × V) → Type 0
Below n [] = Unit {0}
Below n (e ∷ m) = (e.0 < n) × Below n m

module _ {ℓ} {V : Type ℓ} where
  pub get-put :
      (k j : ℕ) (v : V) (m : List (ℕ × V))
      → get j (put k v m) ≡ (if k == j then some v else get j m)
  unfolding get put
  get-put k j v [] = refl
  get-put k j v ((i, w) ∷ m) = ground (arith, get-put k j v m)

  pub get-delete :
      (k j : ℕ) (m : List (ℕ × V)) → get j (delete k m) ≡ (if k == j then none else get j m)
  unfolding get delete
  get-delete k j [] = ground arith
  get-delete k j ((i, w) ∷ m) = ground (arith, get-delete k j m)

  get_above : (n k : ℕ) (m : List (ℕ × V)) → Below n m → n ≤ k → get k m ≡ none
  unfolding get
  get_above n k [] b h = refl
  get_above n k ((i, w) ∷ m) b h = ground (arith, get_above n k m b.1)

  Below-suc : (n : ℕ) (m : List (ℕ × V)) → Below n m → Below (suc n) m
  Below-suc n [] b = tt
  Below-suc n (e ∷ m) b = (omega (arith, b.0), Below-suc n m b.1)

  put-Below : (n : ℕ) (v : V) (m : List (ℕ × V)) → Below n m → Below (suc n) (put n v m)
  unfolding put
  put-Below n v [] b = (omega arith, tt)
  put-Below n v ((i, w) ∷ m) b = ground (arith, b.0, put-Below n v m b.1, Below-suc n m b.1)

  pub delete-Below : (n k : ℕ) (m : List (ℕ × V)) → Below n m → Below n (delete k m)
  unfolding delete
  delete-Below n k [] b = tt
  delete-Below n k ((i, w) ∷ m) b = ground (arith, b.0, delete-Below n k m b.1)

-- The keys in use lie below the counter, which has not wrapped around.
pub record IsValid {p : Program} (s : Shared p) : Type 0 where
  pub given : Below s.next_key s.futures
  pub small : s.next_key < usize_mod

module _ {p : Program} where
  -- Before the counter reaches `usize::MAX`, an insertion gives a key that no future has, finds the
  -- new future under it and every other as before, and keeps the set valid.
  pub insert_lem :
      (f : FutureObject p) (s : Shared p) (j : ℕ)
      → IsValid s
      → s.next_key < usize_max
      → let (key, t) = insert f s in
        (key ≡ some s.next_key)
        × (get s.next_key s.futures ≡ none)
        × (get j t.futures ≡ (if s.next_key == j then some f else get j s.futures))
        × IsValid t
  unfolding insert
  insert_lem f s j v room = (
    ground arith,
    get_above s.next_key s.next_key s.futures v.given (omega arith),
    ground (arith, get-put s.next_key j f s.futures),
    valid,
  )
    where
      valid : IsValid (insert f s).1
      valid = ground (arith, put-Below s.next_key f s.futures v.given, v.small)

  pub remove_key-IsValid : (k : ℕ) (s : Shared p) → IsValid s → IsValid (remove_key k s)
  unfolding remove_key
  remove_key-IsValid k s v = record {
    given = delete-Below s.next_key k s.futures v.given;
    small = v.small;
  }

  -- At `usize::MAX` the insertion panics, and the counter goes on at 0.
  pub insert_full :
      (f : FutureObject p) (s : Shared p)
      → s.next_key ≡ usize_max
      → ((insert f s).0 ≡ none)
        × ((insert f s).1.next_key ≡ 0)
        × ((insert f s).1.futures ≡ s.futures)
  unfolding insert
  insert_full f s e = ground arith
