-- ===== src/Macros/Info/Generated.antt =====
-- The result of the four calls on `actor_info`, where every message type is a plain name.
use mathlib.Core.List.{append_assoc, append-nil}
use mathlib.Core.Path.{fun_ext}
use actix_send.Prelude.{
  ◌≡◌, refl, ap, ◌∙◌, Bool, List, [], ◌∷◌, ◌++◌, map, Option, none, some, All, if◌then◌else◌, arith,
}
use actix_send.Macros.Syntax.{Ident, Arms, no_arms, arm, tuple_struct, Item, Attribute}
use actix_send.Text.{codes}
use actix_send.Macros.Build.{get_ident, path_from_ident_str, attr_from_ident_str}
use actix_send.Macros.Info.{
  ActorInfo, HandleMethodInfo, message_variant, result_variant, enum_variants, push_items,
}
use actix_send.Macros.HandlerTrait.{started, answering, handler_arms, handler_item, handler_trait}

abbrev pub or_empty : Option Ident → Ident
or_empty none = ""
or_empty (some i) = i

-- The name of the message that a method handles.
abbrev pub name : HandleMethodInfo → Ident
name h = or_empty (get_ident h.message_type_path)

abbrev pub IsNamed : HandleMethodInfo → Type 0
IsNamed h = get_ident h.message_type_path ≡ some (name h)

abbrev pub arms_of : Ident → Ident → List HandleMethodInfo → Arms
arms_of message_enum result_enum [] = no_arms
arms_of message_enum result_enum (h ∷ hs) =
    arm (tuple_struct (path_from_ident_str (message_enum ∷ name h ∷ [])) h.message_var_ident)
      (answering result_enum (name h) (started h.is_async h.method_block))
      (arms_of message_enum result_enum hs)

pub handler_arms-arms_of :
    (info : ActorInfo) (hs : List HandleMethodInfo)
    → All IsNamed hs
    → handler_arms info hs ≡ some (arms_of info.message_enum_ident info.result_enum_ident hs)
unfolding handler_arms
handler_arms-arms_of info [] named = refl
handler_arms-arms_of info (h ∷ hs) named =
    ground (arith, named.0, handler_arms-arms_of info hs named.1)

abbrev pub handler_attrs : Bool → List Attribute
handler_attrs no_send =
    let plain_attr = attr_from_ident_str ("handler" ∷ []) in
    if no_send then record plain_attr { tokens = codes "(no_send)" } ∷ [] else plain_attr ∷ []

pub handler_trait_lem :
    (no_send : Bool) (info : ActorInfo) (hs : List HandleMethodInfo)
    → All IsNamed hs
    → handler_trait hs no_send info
      ≡ some (record info {
        items =
            info.items
            ++ handler_item
                (handler_attrs no_send)
                info.ident
                info.message_enum_ident
                info.result_enum_ident
                (arms_of info.message_enum_ident info.result_enum_ident hs)
              ∷ [];
      })
unfolding handler_trait
handler_trait_lem no_send info hs named = ground (arith, handler_arms-arms_of info hs named)

pub push_items-map :
    (make : ActorInfo → HandleMethodInfo → Ident → Item)
    → ((info : ActorInfo) (items : List Item) (h : HandleMethodInfo) (i : Ident)
        → make (record info { items = items }) h i ≡ make info h i)
    → (hs : List HandleMethodInfo) (info : ActorInfo) → All IsNamed hs
    → push_items make hs info
      ≡ some (record info { items = info.items ++ map (λ h. make info h (name h)) hs })
unfolding push_items
push_items-map make stable [] info named = simp append-nil
push_items-map make stable (h ∷ hs) info named =
    let pushed = record info { items = info.items ++ make info h (name h) ∷ [] } in
    rw (named.0, push_items)
      (push_items-map make stable hs pushed named.1
        ∙ ap
            (λ f.
              some (record info { items = (info.items ++ make info h (name h) ∷ []) ++ map f hs }))
            (fun_ext (λ k. stable info pushed.items k (name k)))
        ∙ simp append_assoc)

pub enum_variants-map :
    (hs : List HandleMethodInfo) (info : ActorInfo)
    → All IsNamed hs
    → enum_variants hs info
      ≡ some (record info {
        message_enum = record (info.message_enum) {
          variants = info.message_enum.variants ++ map (λ h. message_variant h (name h)) hs;
        };
        result_enum = record (info.result_enum) {
          variants = info.result_enum.variants ++ map (λ h. result_variant h (name h)) hs;
        };
      })
unfolding enum_variants
enum_variants-map [] info named = simp append-nil
enum_variants-map (h ∷ hs) info named =
    rw (named.0, enum_variants) (enum_variants-map hs _ named.1 ∙ simp append_assoc)
