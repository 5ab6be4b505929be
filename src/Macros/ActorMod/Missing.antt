-- ===== src/Macros/ActorMod/Missing.antt =====
-- A module in which a handle method is missing.
use text.Mathlib.Text.{◌==◌}
use Prim.Native.String.{◌++◌ as concat}
use actix_send.Prelude.{
  ◌≡◌, refl, ap, ◌∙◌, false, List, [], ◌∷◌, ◌++◌, Option, none, some, All, arith,
}
use actix_send.Text.{Text}
use actix_send.Macros.Syntax.{Ident, Ty, Item}
use actix_send.Macros.ModMessages.{MessageParam, Collected, collect}
use actix_send.Macros.ActorMod.{HandleMethod, method_of, arms, handle_methods, finish, actor_mod}
use actix_send.Macros.ActorMod.Packed.{handle_methods-pack}
use actix_send.Macros.ActorMod.SameCode.{nothing_yet}

method_of-none :
    (i : Ident) (methods : List HandleMethod)
    → All (λ m. (m.ident == i) ≡ false) methods
    → method_of i methods ≡ none
method_of-none i [] missing = refl
method_of-none i (m ∷ methods) missing = rw (missing.0) (method_of-none i methods missing.1)

arms-none :
    (me re : Ident) (methods : List HandleMethod) (before : List MessageParam) (p : MessageParam)
    (after : List MessageParam)
    → method_of p.message_ident methods ≡ none
    → arms me re methods (before ++ p ∷ after) ≡ none
unfolding arms
arms-none me re methods [] p after missing = ground (arith, missing)
arms-none me re methods (q ∷ before) p after missing =
    ground (arith, arms-none me re methods before p after missing)

-- `actor_mod` panics when, of a module whose items it collects and whose handlers it reads, some
-- message has no handle method.
pub actor_mod_missing :
    (parse_type : Text → Option Ty) (items left : List Item) (c : Collected)
    (methods : List HandleMethod) (before : List MessageParam) (p : MessageParam)
    (after : List MessageParam)
    → collect parse_type items nothing_yet ≡ some (left, c)
    → handle_methods left ≡ some methods
    → c.message_params ≡ before ++ p ∷ after
    → All (λ m. (m.ident == p.message_ident) ≡ false) methods
    → actor_mod parse_type items ≡ none
unfolding actor_mod finish
actor_mod_missing parse_type items left c methods before p after collected found params missing =
    ground (
      arith,
      collected,
      handle_methods-pack left c,
      found,
      ap (arms (concat c.actor_ident_str "Message") (concat c.actor_ident_str "Result") methods)
            params
          ∙ arms-none (concat c.actor_ident_str "Message") (concat c.actor_ident_str "Result")
              methods before p after (method_of-none p.message_ident methods missing),
    )
