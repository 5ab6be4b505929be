-- ===== src/Macros/HandlerV2.antt =====
-- `handler_v2` of actix-send-macros/src/lib.rs.
pub mod Generate
pub mod Finds
pub mod Answers
pub mod Hooks
pub mod Sends
use text.Mathlib.Text.{◌==◌}
use actix_send.Prelude.{
  Bool, true, false, not, List, [], ◌∷◌, ◌++◌, Option, none, some, if◌then◌else◌,
}
use actix_send.Macros.Syntax.{
  Ident, Ty, type_path, empty_tuple, pinned_future, other_type, Block, stmts, no_stmts, Attribute,
  receiver, Signature, Method, ImplItem, impl_method, impl_type, other_impl_item, ItemImpl,
  ItemEnum, Item, item_impl,
}
use actix_send.Macros.Build.{get_ident, is_ident}
use actix_send.Macros.Args.{NestedMeta, has_flag}
use actix_send.Macros.Info.{
  ActorInfo, new_info, HandleMethodInfo, new_handle_info, enum_variants, from_trait_items,
  map_result_trait,
}
use actix_send.Macros.HandlerTrait.{handler_trait}

-- `on_start`, `on_stop` and the items that are left.
pub record Retained : Type 0 where
  pub on_start : Option Method
  pub on_stop : Option Method
  pub items : List ImplItem

abbrev pub is_some {ℓ} : {A : Type ℓ} → Option A → Bool
is_some none = false
is_some (some a) = true

-- The closure of `retain`: the hooks are taken out, a later one in place of an earlier one, and what
-- is no method is dropped.
retain_item : ImplItem → Retained → Retained
retain_item (impl_method method) r =
    if is_some (is_ident method.attrs "on_start")
    then record r { on_start = some method }
    else if is_some (is_ident method.attrs "on_stop")
    then record r { on_stop = some method }
    else record r { items = r.items ++ impl_method method ∷ [] }
retain_item _ r = r

retain_from : Retained → List ImplItem → Retained
unfolding retain_item
retain_from r [] = r
retain_from r (item ∷ items) = retain_from (retain_item item r) items

-- `impl_item.items.retain(…)`
unfoldable pub retain : List ImplItem → Retained
unfolding retain_from
retain items = retain_from (record { on_start = none; on_stop = none; items = [] }) items

-- `method.attrs.retain(…)`
other_attrs : Ident → List Attribute → List Attribute
other_attrs name [] = []
other_attrs name (a ∷ attrs) =
    let rest = other_attrs name attrs in
    let keep : Bool = elim (get_ident a.path) [ none ↦ true | some i ↦ not (i == name) ] in
    if keep then a ∷ rest else rest

-- `__on_start` or `__on_stop`, with the attributes and the body of the hook if there is one.
unfoldable pub hook_method : Ident → Ident → Option Method → Method
unfolding other_attrs
hook_method method_ident name hook =
    let sig : Signature = record {
      asyncness = true;
      ident = method_ident;
      inputs = receiver ∷ [];
      output = none;
    } in
    elim hook [
      | none ↦ record { attrs = []; sig = sig; block = stmts no_stmts }
      | some method ↦ record {
        attrs = other_attrs name method.attrs;
        sig = sig;
        block = method.block;
      }
    ]

-- `handle_info`; an item that is left is a method.
unfoldable pub collect_info : List ImplItem → Option (List HandleMethodInfo)
collect_info [] = some []
collect_info (impl_method method ∷ items) =
    let rest = collect_info items in
    elim (new_handle_info method) [
      | none ↦ none
      | some info ↦ elim rest [ none ↦ none | some infos ↦ some (info ∷ infos) ]
    ]
collect_info (_ ∷ items) = collect_info items

-- The four calls on `actor_info`.
unfoldable pub generate : Ident → List HandleMethodInfo → Bool → Option ActorInfo
generate actor_ident handle_info no_send = elim (enum_variants handle_info (new_info actor_ident)) [
  | none ↦ none
  | some a ↦ elim (from_trait_items handle_info a) [
    | none ↦ none
    | some b ↦ elim (map_result_trait handle_info b) [
      | none ↦ none
      | some c ↦ handler_trait handle_info no_send c
    ]
  ]
]

pub record Expanded : Type 0 where
  pub on_start_stop : Item
  pub message_enum : ItemEnum
  pub result_enum : ItemEnum
  pub items : List Item

unfoldable pub type_ident : Ty → Option Ident
type_ident (type_path path) = get_ident path
type_ident _ = none

expand : List NestedMeta → ItemImpl → Ident → Option Expanded
unfolding hook_method collect_info
expand args impl_item actor_ident =
    let retained = retain impl_item.items in
    let hooks = item_impl (record {
      attrs = [];
      trait_ = none;
      self_ty = impl_item.self_ty;
      items =
          impl_method (hook_method "__on_start" "on_start" retained.on_start)
          ∷ impl_method (hook_method "__on_stop" "on_stop" retained.on_stop)
          ∷ [];
    }) in
    elim (collect_info retained.items) [
      | none ↦ none
      | some handle_info ↦ elim (generate actor_ident handle_info (has_flag args "no_send")) [
        | none ↦ none
        | some info ↦ some (record {
          on_start_stop = hooks;
          message_enum = info.message_enum;
          result_enum = info.result_enum;
          items = info.items;
        })
      ]
    ]

-- On an `impl` block; on any other item the macro panics.
pub handler_v2 : List NestedMeta → Item → Option Expanded
unfolding type_ident expand
handler_v2 args (item_impl impl_item) = elim (type_ident impl_item.self_ty) [
  | none ↦ none
  | some actor_ident ↦ expand args impl_item actor_ident
]
handler_v2 args _ = none
