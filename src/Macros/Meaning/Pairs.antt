-- ===== src/Macros/Meaning/Pairs.antt =====
-- What a call finds among items that stand in pairs, behind the items of the user.
use actix_send.Prelude.{◌≡◌, refl, ◌∙◌, Bool, true, false, List, [], ◌∷◌, ◌++◌, All, All-zip}
use actix_send.Macros.Syntax.{Item, ItemImpl}
use actix_send.Macros.Meaning.Items.{find_impl}
use actix_send.Macros.Meaning.Find.{as_impl, hits, find_impl-cons}

pub find_impl_foreign :
    (test : ItemImpl → Bool) (xs rest : List Item)
    → All (λ x. hits test (as_impl x) ≡ false) xs
    → find_impl test (xs ++ rest) ≡ find_impl test rest
find_impl_foreign test [] rest miss = refl
find_impl_foreign test (x ∷ xs) rest miss =
    find_impl-cons test x (xs ++ rest) ∙ (rw (miss.0) (find_impl_foreign test xs rest miss.1))

pub All-map :
    {A : Type 0} {P Q : A → Type 0} → ((x : A) → P x → Q x) → (xs : List A) → All P xs → All Q xs
All-map f xs p = All-zip (λ x p _. f x p) xs p p

-- Two items for each thing.
abbrev pub pairs : {A : Type 0} → (A → Item) → (A → Item) → List A → List Item
pairs one two [] = []
pairs one two (x ∷ xs) = one x ∷ two x ∷ pairs one two xs

module _ {A : Type 0} (test : ItemImpl → Bool) (one two : A → Item) where
  abbrev pub IsMissed : A → Type 0
  IsMissed x = (hits test (as_impl (one x)) ≡ false) × (hits test (as_impl (two x)) ≡ false)

  pub find_impl-pairs :
      (xs : List A) (rest : List Item)
      → All IsMissed xs
      → find_impl test (pairs one two xs ++ rest) ≡ find_impl test rest
  find_impl-pairs [] rest miss = refl
  find_impl-pairs (x ∷ xs) rest miss =
      find_impl-cons test (one x) (two x ∷ (pairs one two xs ++ rest))
      ∙ (rw (miss.0.0) (
          find_impl-cons test (two x) (pairs one two xs ++ rest)
          ∙ (rw (miss.0.1) (find_impl-pairs xs rest miss.1))))

  pub find_impl_one :
      (before : List A) (x : A) (after : List A) (rest : List Item)
      → All IsMissed before
      → hits test (as_impl (one x)) ≡ true
      → find_impl test (pairs one two (before ++ x ∷ after) ++ rest) ≡ as_impl (one x)
  find_impl_one [] x after rest miss hit =
      find_impl-cons test (one x) (two x ∷ (pairs one two after ++ rest)) ∙ (rw hit refl)
  find_impl_one (y ∷ before) x after rest miss hit =
      find_impl-pairs (y ∷ []) (pairs one two (before ++ x ∷ after) ++ rest) (miss.0, tt)
      ∙ find_impl_one before x after rest miss.1 hit

  pub find_impl_two :
      (before : List A) (x : A) (after : List A) (rest : List Item)
      → All IsMissed before
      → hits test (as_impl (one x)) ≡ false
      → hits test (as_impl (two x)) ≡ true
      → find_impl test (pairs one two (before ++ x ∷ after) ++ rest) ≡ as_impl (two x)
  find_impl_two [] x after rest miss skip hit =
      find_impl-cons test (one x) (two x ∷ (pairs one two after ++ rest))
      ∙ (rw skip (find_impl-cons test (two x) (pairs one two after ++ rest) ∙ (rw hit refl)))
  find_impl_two (y ∷ before) x after rest miss skip hit =
      find_impl-pairs (y ∷ []) (pairs one two (before ++ x ∷ after) ++ rest) (miss.0, tt)
      ∙ find_impl_two before x after rest miss.1 skip hit
