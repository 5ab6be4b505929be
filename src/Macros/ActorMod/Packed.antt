-- ===== src/Macros/ActorMod/Packed.antt =====
-- The items that `actor_mod` pushes, beside those of a module.
use mathlib.Core.List.{Perm, perm_middle}
use mathlib.Core.List.Perm
use mathlib.Core.Option.{none-ne-some, some-injective}
use mathlib.Core.Path.{subst}
use Prim.Native.String.{◌++◌ as concat}
use actix_send.Prelude.{
  ◌≡◌, refl, ap, true, not, List, [], ◌∷◌, ◌++◌, map, Option, none, some, All, arith,
}
use actix_send.Macros.Syntax.{Ident, Item, item_enum}
use actix_send.Macros.Build.{from_trait, type_path_from_idents}
use actix_send.Macros.Info.{HandleMethodInfo, new_info, from_item, map_result_item}
use actix_send.Macros.Info.Generated.{IsNamed, arms_of}
use actix_send.Macros.ModMessages.{MessageParam, Collected}
use actix_send.Macros.HandlerV2.Generate.{base, froms, maps}
use actix_send.Macros.ActorMod.{
  HandleMethod, method_of, arms, handle_methods, without_handlers, pack, message_enum, result_enum,
  handler_method, is_kept,
}
use actix_send.Macros.ModConversions.{conversions, map_item, map_method, map_arms}

-- A message with the method for it.
abbrev pub Handled : Type 0
Handled = MessageParam × HandleMethod

abbrev pub with_methods : List HandleMethod → List MessageParam → Option (List Handled)
with_methods methods [] = some []
with_methods methods (p ∷ params) =
    let rest = with_methods methods params in
    elim (method_of p.message_ident methods) [
      | none ↦ none
      | some m ↦ elim rest [ none ↦ none | some others ↦ some ((p, m) ∷ others) ]
    ]

-- The same message as a handle method of `handler_v2`.
abbrev pub as_info : Handled → HandleMethodInfo
as_info (p, m) = record {
  message_var_ident = m.arg_ident;
  message_type_path = type_path_from_idents (p.message_ident ∷ []);
  message_return_type = some p.result_type;
  method_block = m.stmts;
  is_async = not p.is_blocking;
}

abbrev IsPushed : Item → Type 0
IsPushed item = (handler_method item ≡ none) × (is_kept item ≡ true)

handle_methods-append :
    (xs ys : List Item) → All IsPushed ys → handle_methods (xs ++ ys) ≡ handle_methods xs
unfolding handle_methods
handle_methods-append [] [] pushed = refl
handle_methods-append [] (y ∷ ys) pushed =
    ground (arith, pushed.0.0, handle_methods-append [] ys pushed.1)
handle_methods-append (x ∷ xs) ys pushed = ground (arith, handle_methods-append xs ys pushed)

without_handlers-append :
    (xs ys : List Item) → All IsPushed ys → without_handlers (xs ++ ys) ≡ without_handlers xs ++ ys
unfolding without_handlers
without_handlers-append [] [] pushed = refl
without_handlers-append [] (y ∷ ys) pushed =
    rw (pushed.0.1) (ap (λ zs. y ∷ zs) (without_handlers-append [] ys pushed.1))
without_handlers-append (x ∷ xs) ys pushed = ground (arith, without_handlers-append xs ys pushed)

conversions-IsPushed :
    (me re : Ident) (params : List MessageParam) (rest : List Item)
    → All IsPushed rest
    → All IsPushed (conversions me re params ++ rest)
unfolding conversions handler_method is_kept from_trait map_item
conversions-IsPushed me re [] rest pushed = pushed
conversions-IsPushed me re (p ∷ params) rest pushed =
    ((refl, refl), ((refl, refl), conversions-IsPushed me re params rest pushed))

abbrev pub enums : Collected → List Item
enums c =
    item_enum (message_enum (concat c.actor_ident_str "Message") c)
    ∷ item_enum (result_enum (concat c.actor_ident_str "Result") c)
    ∷ []

abbrev pub conversions_of : Collected → List Item
conversions_of c =
    conversions (concat c.actor_ident_str "Message") (concat c.actor_ident_str "Result")
      c.message_params

enums-IsPushed : (c : Collected) → All IsPushed (conversions_of c ++ enums c)
unfolding handler_method is_kept
enums-IsPushed c =
    conversions-IsPushed _ _ c.message_params (enums c) ((refl, refl), ((refl, refl), tt))

pub handle_methods-pack :
    (items : List Item) (c : Collected) → handle_methods (pack items c) ≡ handle_methods items
unfolding pack
handle_methods-pack items c =
    handle_methods-append items (conversions_of c ++ enums c) (enums-IsPushed c)

pub without_handlers-pack :
    (items : List Item) (c : Collected)
    → without_handlers (pack items c) ≡ without_handlers items ++ (conversions_of c ++ enums c)
unfolding pack
without_handlers-pack items c =
    without_handlers-append items (conversions_of c ++ enums c) (enums-IsPushed c)

abbrev pub params_of : List Handled → List MessageParam
params_of hs = map (λ h. h.0) hs

pub infos_of-IsNamed : (hs : List Handled) → All IsNamed (map as_info hs)
infos_of-IsNamed [] = tt
infos_of-IsNamed (h ∷ hs) = (refl, infos_of-IsNamed hs)

first_handled :
    (p : MessageParam) (found : Option HandleMethod) (rest : Option (List Handled))
    (hs : List Handled)
    → elim found [
      | none ↦ none
      | some m ↦ elim rest [ none ↦ none | some others ↦ some ((p, m) ∷ others) ]
    ]
      ≡ some hs
    → (m : HandleMethod) × (others : List Handled) × (found ≡ some m)
      × (rest ≡ some others)
      × ((p, m) ∷ others ≡ hs)
first_handled p none rest hs e = absurd (none-ne-some _ e)
first_handled p (some m) none hs e = absurd (none-ne-some _ e)
first_handled p (some m) (some others) hs e = (m, others, refl, refl, some-injective _ _ e)

-- What a module with a method for every message has.
pub with_methods-arms :
    (me re : Ident) (methods : List HandleMethod) (params : List MessageParam) (hs : List Handled)
    → with_methods methods params ≡ some hs
    → (params ≡ params_of hs) × (arms me re methods params ≡ some (arms_of me re (map as_info hs)))
unfolding arms
with_methods-arms me re methods [] hs found =
    subst
      (λ hs. ([] ≡ params_of hs) × (arms me re methods [] ≡ some (arms_of me re (map as_info hs))))
      (some-injective _ _ found) (refl, refl)
with_methods-arms me re methods (p ∷ params) hs found =
    let (m, others, here, on, e) = first_handled p (method_of p.message_ident methods) _ hs found in
    let (names, code) = with_methods-arms me re methods params others on in
    subst
      (λ hs.
        (p ∷ params ≡ params_of hs)
        × (arms me re methods (p ∷ params) ≡ some (arms_of me re (map as_info hs))))
      e (ap (λ ps. p ∷ ps) names, ground (arith, here, code))

module _ (actor : Ident) where
  abbrev me : Ident
  me = concat actor "Message"

  abbrev re : Ident
  re = concat actor "Result"

  -- The conversions of a message stand together here, and apart in `handler_v2`.
  pub conversions-perm :
      (hs : List Handled)
      → Perm
          (conversions me re (params_of hs))
          (froms actor (map as_info hs) ++ maps actor (map as_info hs))
  unfolding conversions froms maps base new_info from_trait from_item map_item map_method map_arms
      map_result_item
  conversions-perm [] = Perm.refl []
  conversions-perm ((p, m) ∷ hs) = Perm.trans (Perm.cons _ (Perm.cons _ (conversions-perm hs))) (
      Perm.cons _
        (Perm.symm (perm_middle (froms actor (map as_info hs)) (maps actor (map as_info hs)))))
