-- ===== src/Macros/Meaning/Find.antt =====
-- Which generated item a call finds, and which arm a variant takes.
use text.Mathlib.Text.{◌==◌}
use text.Mathlib.TextPositions.{eq_refl}
use actix_send.Prelude.{
  ◌≡◌, refl, ap, ◌∙◌, Bool, true, false, List, [], ◌∷◌, ◌++◌, map, Option, none, some, All,
  if◌then◌else◌, arith,
}
use actix_send.Macros.Syntax.{Ident, Item, ItemImpl, item_impl, Pat, Expr, Arms, arm, tuple_struct}
use actix_send.Macros.Build.{path_from_ident_str}
use actix_send.Macros.Info.{HandleMethodInfo}
use actix_send.Macros.HandlerTrait.{answering, started}
use actix_send.Macros.Info.Generated.{name, arms_of}
use actix_send.Macros.Meaning.{Host, Datum, tagged, Env, Ran, bind_var, eval, eval_arms, matched}
use actix_send.Macros.Meaning.Items.{find_impl}

abbrev pub as_impl : Item → Option ItemImpl
as_impl (item_impl i) = some i
as_impl _ = none

abbrev pub hits : (ItemImpl → Bool) → Option ItemImpl → Bool
hits test none = false
hits test (some i) = test i

pub find_impl-cons :
    (test : ItemImpl → Bool) (item : Item) (items : List Item)
    → find_impl test (item ∷ items)
      ≡ (if hits test (as_impl item) then as_impl item else find_impl test items)
unfolding find_impl
find_impl-cons test (item_impl i) items = ground arith
find_impl-cons test _ items = refl

module _ {A : Type 0} (test : ItemImpl → Bool) (make : A → Item) where
  -- None of the items that are made for `xs` is found.
  pub find_impl-skip :
      (xs : List A) (rest : List Item)
      → All (λ x. hits test (as_impl (make x)) ≡ false) xs
      → find_impl test (map make xs ++ rest) ≡ find_impl test rest
  find_impl-skip [] rest miss = refl
  find_impl-skip (x ∷ xs) rest miss =
      find_impl-cons test (make x) (map make xs ++ rest)
      ∙ (rw (miss.0) (find_impl-skip xs rest miss.1))

  -- The item for `x` is found, if it is the first that fits.
  pub find_impl-first :
      (before : List A) (x : A) (after : List A) (rest : List Item)
      → All (λ y. hits test (as_impl (make y)) ≡ false) before
      → hits test (as_impl (make x)) ≡ true
      → find_impl test (map make (before ++ x ∷ after) ++ rest) ≡ as_impl (make x)
  find_impl-first [] x after rest miss hit =
      find_impl-cons test (make x) (map make after ++ rest) ∙ (rw hit refl)
  find_impl-first (y ∷ before) x after rest miss hit =
      find_impl-cons test (make y) (map make (before ++ x ∷ after) ++ rest)
      ∙ (rw (miss.0) (find_impl-first before x after rest miss.1 hit))

-- No method in front handles a message of the same name.
abbrev pub IsFirst : List HandleMethodInfo → HandleMethodInfo → Type 0
IsFirst before h = All (λ k. (name k == name h) ≡ false) before

module _ (host : Host) where
  pub take_arm :
      (pat : Pat) (body : Expr) (rest : Arms) (d : Datum host) (env env' : Env host)
      (a : host.Actor)
      → matched host pat d env ≡ some env'
      → eval_arms host (arm pat body rest) d env a ≡ eval host body env' a
  unfolding eval
  take_arm pat body rest d env env' a e =
      ap
        (λ (o : Option (Env host)). elim o as (λ _. Ran host) [
          | none ↦ eval_arms host rest d env a
          | some env'' ↦ eval host body env'' a
        ])
        e

  pass_arm :
      (pat : Pat) (body : Expr) (rest : Arms) (d : Datum host) (env : Env host) (a : host.Actor)
      → matched host pat d env ≡ none
      → eval_arms host (arm pat body rest) d env a ≡ eval_arms host rest d env a
  unfolding eval
  pass_arm pat body rest d env a e =
      ap
        (λ (o : Option (Env host)). elim o as (λ _. Ran host) [
          | none ↦ eval_arms host rest d env a
          | some env'' ↦ eval host body env'' a
        ])
        e

  pub matched_lem :
      (e i j x : Ident) (d : Datum host) (env : Env host)
      → matched host (tuple_struct (path_from_ident_str (e ∷ i ∷ [])) x) (tagged e j d) env
        ≡ (if i == j then some (bind_var host x d env) else none)
  matched_lem e i j x d env = ground (arith, eq_refl e)

  pub matched_self :
      (e i x : Ident) (d : Datum host) (env : Env host)
      → matched host (tuple_struct (path_from_ident_str (e ∷ i ∷ [])) x) (tagged e i d) env
        ≡ some (bind_var host x d env)
  matched_self e i x d env = matched_lem e i i x d env ∙ rw (eq_refl i)

  -- A variant takes the arm of the first method for its name.
  pub eval_arms-arms_of :
      (e r : Ident) (before : List HandleMethodInfo) (h : HandleMethodInfo)
      (after : List HandleMethodInfo) (d : Datum host) (env : Env host) (a : host.Actor)
      → IsFirst before h
      → eval_arms host (arms_of e r (before ++ h ∷ after)) (tagged e (name h) d) env a
        ≡ eval host
            (answering r (name h) (started h.is_async h.method_block))
            (bind_var host h.message_var_ident d env)
            a
  eval_arms-arms_of e r [] h after d env a first =
      take_arm _ _ _ _ env _ a (matched_self e (name h) h.message_var_ident d env)
  eval_arms-arms_of e r (k ∷ before) h after d env a first =
      pass_arm _ _ _ _ env a
        (matched_lem e (name k) (name h) k.message_var_ident d env ∙ rw (first.0))
      ∙ eval_arms-arms_of e r before h after d env a first.1
