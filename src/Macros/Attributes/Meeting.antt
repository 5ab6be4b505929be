-- ===== src/Macros/Attributes/Meeting.antt =====
-- How the code of `actor` and `handler` meets that of `handler_v2`.
use text.Mathlib.Text.{◌==◌}
use mathlib.Core.List.{append-nil}
use Prim.Native.String.{◌++◌ as concat}
use actix_send.Prelude.{
  ◌≡◌, refl, sym, ap, ◌∙◌, inl, inr, Bool-cases, Bool, true, false, not, List, [], ◌∷◌, ◌++◌,
  Option, none, some, All, if◌then◌else◌, arith,
}
use actix_send.Text.{equal}
use actix_send.Macros.Syntax.{
  Ident, Ty, type_path, pat_ident, Declared, Attribute, Signature, receiver, typed, Method,
  ImplItem, impl_type, ItemImpl, Item, item_struct, item_impl,
}
use actix_send.Macros.Build.{type_path_from_idents}
use actix_send.Macros.Args.{NestedMeta, has_flag}
use actix_send.Macros.Equal.{has_attr, same_attribute}
use actix_send.Macros.Info.{HandleMethodInfo, new_info}
use actix_send.Macros.HandlerTrait.{handler_item}
use actix_send.Macros.Info.Generated.{IsNamed}
use actix_send.Macros.Meaning.Items.{is_plain, is_handler, find_impl, first_method}
use actix_send.Macros.HandlerV2.{Expanded, type_ident, collect_info, handler_v2}
use actix_send.Macros.HandlerV2.Hooks.{handle_items}
use actix_send.Macros.HandlerV2.Sends.{expanded, handler_v2-generate}
use actix_send.Macros.HandlerV2.Generate.{
  generated, generate_lem, generated-items, the_handler, with_variants, base,
}
use actix_send.Macros.HandlerV2.Finds.{find-handler}
use actix_send.Macros.Attributes.{
  actor, handler, async_trait_attr, static_items, actor_impl, hook_fn,
}

has_attr-append :
    (attrs : List Attribute) (a : Attribute)
    → same_attribute a a ≡ true
    → has_attr (attrs ++ a ∷ []) a ≡ true
unfolding has_attr
has_attr-append [] a same = ground (arith, same)
has_attr-append (b ∷ attrs) a same = ground (arith, has_attr-append attrs a same)

same_async_trait :
    (no_send : Bool) → same_attribute (async_trait_attr no_send) (async_trait_attr no_send) ≡ true
unfolding same_attribute equal
same_async_trait true = refl
same_async_trait false = refl

-- On an `impl` block, `handler` answers the same block with the attribute of `async_trait` among its
-- attributes, where what is new stands behind those that were there. On its own answer, with the
-- same arguments, it changes nothing.
pub handler_lem :
    (args : List NestedMeta) (impl_item : ItemImpl)
    → (extra : List Attribute) × (out : ItemImpl) × (handler args (item_impl impl_item)
        ≡ some (item_impl out))
      × (out ≡ record impl_item { attrs = impl_item.attrs ++ extra })
      × (has_attr out.attrs (async_trait_attr (has_flag args "no_send")) ≡ true)
      × (handler args (item_impl out) ≡ some (item_impl out))
unfolding handler
handler_lem args impl_item = elim (Bool-cases (has_attr impl_item.attrs attr)) [
  | inl there ↦ (
    [],
    impl_item,
    rw there refl,
    ap (λ attrs. record impl_item { attrs = attrs }) (sym (append-nil impl_item.attrs)),
    there,
    rw there refl,
  )
  | inr missing ↦ (
    attr ∷ [],
    record impl_item { attrs = impl_item.attrs ++ attr ∷ [] },
    rw missing refl,
    refl,
    now,
    rw now refl,
  )
]
  where
    attr : Attribute
    attr = async_trait_attr (has_flag args "no_send")

    now : has_attr (impl_item.attrs ++ attr ∷ []) attr ≡ true
    now = has_attr-append impl_item.attrs attr (same_async_trait (has_flag args "no_send"))

abbrev pub assoc_type : Ident → List ImplItem → Option Ty
assoc_type name [] = none
assoc_type name (impl_type i ty ∷ items) =
    let rest = assoc_type name items in if i == name then some ty else rest
assoc_type name (_ ∷ items) = assoc_type name items

-- The associated type in the first `impl Actor`.
abbrev pub declared : Ident → List Item → Option Ty
declared name items = elim (find_impl (λ item. is_plain item.trait_ "Actor") items) [
  | none ↦ none
  | some item ↦ assoc_type name item.items
]

-- The method of the first `impl Handler`.
abbrev pub sig_of : Option Method → Option Signature
sig_of none = none
sig_of (some m) = some m.sig

abbrev pub impl_sig : Option ItemImpl → Option Signature
impl_sig none = none
impl_sig (some item) = sig_of (first_method item.items)

abbrev pub handle_sig : List Item → Option Signature
handle_sig items = impl_sig (find_impl is_handler items)

abbrev pub expected_sig : Ty → Ty → Signature
expected_sig message result = record {
  asyncness = true;
  ident = "handle";
  inputs = receiver ∷ typed (pat_ident "msg") message ∷ [];
  output = some result;
}

handle_sig-generated :
    (i : Ident) (no_send : Bool) (hs : List HandleMethodInfo)
    → handle_sig (generated i no_send hs).items
      ≡ some (
          expected_sig
            (type_path (type_path_from_idents (concat i "Message" ∷ [])))
            (type_path (type_path_from_idents (concat i "Result" ∷ []))))
unfolding the_handler handler_item
handle_sig-generated i no_send hs =
    ap handle_sig (generated-items i no_send hs) ∙ ap impl_sig (find-handler i no_send hs)

-- `actor` on a struct, without the flag `no_static`, and `handler_v2` on an `impl` block of the same
-- name, where each method other than the hooks has a message whose type is a plain name: both
-- write code, whatever their other arguments. The types `Message` and `Result` that `actor` declares are
-- the enums that `handler_v2` writes, and the handler that `handler_v2` writes is an async method that
-- takes the one and answers the other.
pub actor_meets_handler_v2 :
    (args handler_args : List NestedMeta) (s : Declared) (impl_item : ItemImpl)
    (hs : List HandleMethodInfo)
    → has_flag args "no_static" ≡ false
    → type_ident impl_item.self_ty ≡ some s.ident
    → collect_info (handle_items impl_item.items) ≡ some hs
    → All IsNamed hs
    → (out : List Item) × (code : Expanded) × (actor args (item_struct s) ≡ some out)
      × (handler_v2 handler_args (item_impl impl_item) ≡ some code)
      × (declared "Message" out
          ≡ some (type_path (type_path_from_idents (code.message_enum.ident ∷ []))))
      × (declared "Result" out
          ≡ some (type_path (type_path_from_idents (code.result_enum.ident ∷ []))))
      × (handle_sig code.items
          ≡ some (
              expected_sig
                (type_path (type_path_from_idents (code.message_enum.ident ∷ [])))
                (type_path (type_path_from_idents (code.result_enum.ident ∷ [])))))
unfolding actor static_items actor_impl hook_fn generated with_variants base new_info find_impl
actor_meets_handler_v2 args handler_args s impl_item hs static plain infos named =
    let no_send = has_flag handler_args "no_send" in
    let info = generated s.ident no_send hs in
    (
      item_struct s ∷ static_items (not (has_flag args "no_send")) s.ident,
      expanded impl_item info,
      rw static refl,
      handler_v2-generate handler_args impl_item s.ident hs info plain infos
          (generate_lem s.ident no_send hs named),
      refl,
      refl,
      handle_sig-generated s.ident no_send hs,
    )
