-- ===== src/Text/Equal.antt =====
-- `equal` of texts is equality.
use actix_send.Prelude.{◌≡◌, refl, true, [], ◌∷◌, arith}
use actix_send.Text.{Text, equal}

pub equal_lem : (xs ys : Text) → equal xs ys ≡ true → xs ≡ ys
unfolding equal
equal_lem [] [] e = refl
equal_lem [] (y ∷ ys) e = ground arith
equal_lem (x ∷ xs) [] e = ground arith
equal_lem (x ∷ xs) (y ∷ ys) e = let rest = equal_lem xs ys in ground arith
