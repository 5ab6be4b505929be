-- ===== src/Macros/HandlerV2/Generate.antt =====
-- The items that `handler_v2` generates, written out.
use Prim.Native.String.{◌++◌ as concat}
use mathlib.Core.List.{append_assoc}
use actix_send.Prelude.{◌≡◌, refl, Bool, List, [], ◌∷◌, ◌++◌, map, some, All, arith}
use actix_send.Macros.Syntax.{Ident, Item}
use actix_send.Macros.Info.{
  ActorInfo, new_info, HandleMethodInfo, enum_variants, from_item, map_result_item,
  from_trait_items, map_result_trait, message_variant, result_variant,
}
use actix_send.Macros.HandlerTrait.{handler_item, handler_trait}
use actix_send.Macros.Info.Generated.{
  name, IsNamed, arms_of, handler_attrs, handler_trait_lem, push_items-map, enum_variants-map,
}
use actix_send.Macros.HandlerV2.{generate}

module _ (actor : Ident) where
  unfoldable pub base : ActorInfo
  base = new_info actor

  unfoldable pub the_handler : Bool → List HandleMethodInfo → Item
  the_handler no_send hs =
      handler_item (handler_attrs no_send) actor (concat actor "Message") (concat actor "Result")
        (arms_of (concat actor "Message") (concat actor "Result") hs)

  unfoldable pub froms : List HandleMethodInfo → List Item
  froms hs = map (λ h. from_item base h (name h)) hs

  unfoldable pub maps : List HandleMethodInfo → List Item
  maps hs = map (λ h. map_result_item base h (name h)) hs

  unfoldable pub with_variants : List HandleMethodInfo → ActorInfo
  with_variants hs = record base {
    message_enum = record (base.message_enum) {
      variants = map (λ h. message_variant h (name h)) hs;
    };
    result_enum = record (base.result_enum) { variants = map (λ h. result_variant h (name h)) hs };
  }

  with_froms : List HandleMethodInfo → ActorInfo
  with_froms hs = record (with_variants hs) { items = froms hs }

  with_maps : List HandleMethodInfo → ActorInfo
  with_maps hs = record (with_variants hs) { items = froms hs ++ maps hs }

  unfoldable pub generated : Bool → List HandleMethodInfo → ActorInfo
  generated no_send hs = record (with_variants hs) {
    items = (froms hs ++ maps hs) ++ the_handler no_send hs ∷ [];
  }

  generate_chain :
      (no_send : Bool) (hs : List HandleMethodInfo) (a b c d : ActorInfo)
      → enum_variants hs (new_info actor) ≡ some a
      → from_trait_items hs a ≡ some b
      → map_result_trait hs b ≡ some c
      → handler_trait hs no_send c ≡ some d
      → generate actor hs no_send ≡ some d
  unfolding generate
  generate_chain no_send hs a b c d e f g h = ground arith

  -- The four calls on names: each enum has one variant for each method, in the order of the methods,
  -- and behind the conversions there is one handler.
  pub generate_lem :
      (no_send : Bool) (hs : List HandleMethodInfo)
      → All IsNamed hs
      → generate actor hs no_send ≡ some (generated no_send hs)
  unfolding generate from_trait_items map_result_trait handler_trait generated with_maps with_froms
      with_variants froms maps base the_handler new_info from_item map_result_item
  generate_lem no_send hs named =
      let a : enum_variants hs base ≡ some (with_variants hs) = enum_variants-map hs base named in
      let b : from_trait_items hs (with_variants hs) ≡ some (with_froms hs) =
        push_items-map from_item (λ _ _ _ _. refl) hs (with_variants hs) named in
      let c : map_result_trait hs (with_froms hs) ≡ some (with_maps hs) =
        push_items-map map_result_item (λ _ _ _ _. refl) hs (with_froms hs) named in
      let d : handler_trait hs no_send (with_maps hs) ≡ some (generated no_send hs) =
        handler_trait_lem no_send (with_maps hs) hs named in
      generate_chain no_send hs _ _ _ _ a b c d

  pub generated-items :
      (no_send : Bool) (hs : List HandleMethodInfo)
      → (generated no_send hs).items ≡ froms hs ++ (maps hs ++ the_handler no_send hs ∷ [])
  unfolding generated
  generated-items no_send hs = append_assoc (froms hs) (maps hs) _
