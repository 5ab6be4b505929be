-- ===== src/Macros/ActorMod/SameCode.antt =====
-- The code that `actor_mod` writes for a module, beside what `handler_v2` writes for the same methods.
use mathlib.Core.List.{Perm, perm_middle, append_assoc}
use mathlib.Core.List.Perm
use mathlib.Core.Path.{subst, ap₂}
use Prim.Native.String.{◌++◌ as concat}
use text.Mathlib.Text.{◌==◌}
use actix_send.Prelude.{
  ◌≡◌, refl, sym, ap, inl, inr, Bool-cases, ◌∙◌, false, List, [], ◌∷◌, ◌++◌, map, Option, some,
  arith,
}
use actix_send.Text.{Text}
use actix_send.Macros.Syntax.{Ty, Item, item_enum}
use actix_send.Macros.Info.{ActorInfo, new_info, message_variant, result_variant}
use actix_send.Macros.HandlerTrait.{handler_item}
use actix_send.Macros.Info.Generated.{name}
use actix_send.Macros.ModMessages.{Collected, collect, without_message}
use actix_send.Macros.HandlerV2.{generate}
use actix_send.Macros.HandlerV2.Generate.{
  base, with_variants, the_handler, froms, maps, generated, generate_lem,
}
use actix_send.Macros.ActorMod.{
  HandleMethod, handle_methods, without_handlers, pack, Module, finish, handle_item, dummy_hooks,
  actor_mod, message_enum, result_enum,
}
use actix_send.Macros.ModConversions as ModConversions
use actix_send.Macros.ActorMod.Packed.{
  Handled, with_methods, as_info, enums, conversions_of, handle_methods-pack, without_handlers-pack,
  params_of, infos_of-IsNamed, with_methods-arms, conversions-perm,
}

abbrev pub nothing_yet : Collected
nothing_yet = record { message_params = []; attributes = []; actor_ident_str = "" }

-- The enums that `handler_v2` writes, with the attributes of the messages.
abbrev pub with_attributes : Collected → ActorInfo → List Item
with_attributes c info =
    item_enum (record (info.message_enum) { attrs = without_message c.attributes })
    ∷ item_enum info.result_enum
    ∷ []

message_variants :
    (hs : List Handled)
    → map ModConversions.message_variant (params_of hs)
      ≡ map (λ h. message_variant h (name h)) (map as_info hs)
message_variants [] = refl
message_variants (h ∷ hs) = ap (λ vs. ModConversions.message_variant h.0 ∷ vs) (message_variants hs)

same_result :
    (h : Handled)
    → ModConversions.result_variant h.0 ≡ result_variant (as_info h) (name (as_info h))
same_result (p, m) = elim (Bool-cases p.is_blocking) [
  | inl blocking ↦ rw (blocking) refl
  | inr direct ↦ rw (direct) refl
]

result_variants :
    (hs : List Handled)
    → map ModConversions.result_variant (params_of hs)
      ≡ map (λ h. result_variant h (name h)) (map as_info hs)
result_variants [] = refl
result_variants (h ∷ hs) = ap₂ (λ v vs. v ∷ vs) (same_result h) (result_variants hs)

reorder :
    {A : Type 0} (left xs ys : List A) (a b h : A)
    → Perm xs ys
    → Perm ((left ++ (xs ++ a ∷ b ∷ [])) ++ h ∷ []) (left ++ (a ∷ b ∷ (ys ++ h ∷ [])))
reorder left xs ys a b h p =
    subst (λ zs. Perm zs (left ++ (a ∷ b ∷ (ys ++ h ∷ []))))
      (ap (λ zs. left ++ zs) (sym (append_assoc xs (a ∷ b ∷ []) (h ∷ [])))
        ∙ sym (append_assoc left (xs ++ a ∷ b ∷ []) (h ∷ [])))
      (Perm.append_left left (
        Perm.trans (perm_middle xs (b ∷ h ∷ [])) (
          Perm.cons a
            (Perm.trans (perm_middle xs (h ∷ [])) (Perm.cons b (Perm.append_right (h ∷ []) p))))))

module _ (c : Collected) (hs : List Handled) (names : c.message_params ≡ params_of hs) where
  abbrev written : ActorInfo
  written = generated c.actor_ident_str false (map as_info hs)

  same_enums : enums c ≡ with_attributes c written
  unfolding generated with_variants base new_info message_enum result_enum
  same_enums = rw (names, message_variants hs, result_variants hs) refl

  same_items :
      Perm
        (conversions_of c)
        (froms c.actor_ident_str (map as_info hs) ++ maps c.actor_ident_str (map as_info hs))
  same_items = rw names (conversions-perm c.actor_ident_str hs)

  -- The enums stand behind the conversions here, and in front of them in `handler_v2`.
  pub same_order :
      (left : List Item)
      → Perm
          ((left ++ (conversions_of c ++ enums c))
            ++ the_handler c.actor_ident_str false (map as_info hs) ∷ [])
          (left ++ (with_attributes c written ++ written.items))
  unfolding generated with_variants
  same_order left = rw same_enums (reorder left (conversions_of c) _ _ _ _ same_items)

-- The module that `actor_mod` writes.
abbrev pub module_of : List Item → Collected → List Handled → Module
module_of left c hs = record {
  items =
      without_handlers (pack left c) ++ the_handler c.actor_ident_str false (map as_info hs) ∷ [];
  hooks = dummy_hooks c.actor_ident_str;
}

pub actor_mod_lem :
    (parse_type : Text → Option Ty) (items left : List Item) (c : Collected)
    (methods : List HandleMethod) (hs : List Handled)
    → collect parse_type items nothing_yet ≡ some (left, c)
    → handle_methods left ≡ some methods
    → with_methods methods c.message_params ≡ some hs
    → (c.actor_ident_str == "") ≡ false
    → (c.message_params ≡ params_of hs) × (actor_mod parse_type items ≡ some (module_of left c hs))
unfolding actor_mod finish handle_item the_handler handler_item
actor_mod_lem parse_type items left c methods hs collected found handled named =
    let (names, code) =
      with_methods-arms (concat c.actor_ident_str "Message") (concat c.actor_ident_str "Result")
        methods c.message_params hs handled in
    (names, ground (arith, collected, handle_methods-pack left c, found, named, code))

-- For a module whose items the loop of `actor_mod` collects, which has a named actor, and whose
-- handlers `handle_methods` reads so that every message has a method: `actor_mod` writes a module,
-- with the empty hooks beside it. Its items are, up to their order, those of the module without the
-- handlers, the two enums that `handler_v2` writes for the same messages and bodies, the message
-- enum with the messages' other attributes, and all items that `handler_v2` writes for them, the
-- handler included. A message that is not blocking counts as an async method, and a blocking one as
-- a method that is not async.
pub actor_mod-generate :
    (parse_type : Text → Option Ty) (items left : List Item) (c : Collected)
    (methods : List HandleMethod) (hs : List Handled)
    → collect parse_type items nothing_yet ≡ some (left, c)
    → handle_methods left ≡ some methods
    → with_methods methods c.message_params ≡ some hs
    → (c.actor_ident_str == "") ≡ false
    → (m : Module) × (info : ActorInfo) × (actor_mod parse_type items ≡ some m)
      × (generate c.actor_ident_str (map as_info hs) false ≡ some info)
      × (m.hooks ≡ dummy_hooks c.actor_ident_str)
      × Perm m.items (without_handlers left ++ (with_attributes c info ++ info.items))
actor_mod-generate parse_type items left c methods hs collected found handled named =
    let (names, written_module) =
      actor_mod_lem parse_type items left c methods hs collected found handled named in
    (
      module_of left c hs,
      generated c.actor_ident_str false (map as_info hs),
      written_module,
      generate_lem c.actor_ident_str false (map as_info hs) (infos_of-IsNamed hs),
      refl,
      rw (without_handlers-pack left c) (same_order c hs names (without_handlers left)),
    )
