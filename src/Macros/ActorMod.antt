-- ===== src/Macros/ActorMod.antt =====
-- `actor_mod` of actix-send-macros/src/lib.rs.
pub mod Packed
pub mod SameCode
pub mod Missing
pub mod Sends
mod Checks
use text.Mathlib.Text.{◌==◌}
use Prim.Native.String.{◌++◌ as concat}
use actix_send.Prelude.{
  Bool, true, false, not, List, [], ◌∷◌, ◌++◌, map, Option, none, some, if◌then◌else◌,
}
use actix_send.Text.{Text}
use actix_send.Macros.Syntax.{
  Ident, Ty, type_path, Segments, end, segment, angle_bracketed, no_types, type_and, pat_ident,
  tuple_struct, wild, Expr, expr_path, expr_match, expr_macro, Block, stmts, no_stmts, stmt_expr,
  Arms, no_arms, arm, FnArg, receiver, typed, Method, ImplItem, impl_method, impl_type, ItemImpl,
  Variant, ItemEnum, Item, item_impl, item_enum,
}
use actix_send.Macros.Build.{
  path_from_ident_str, type_path_from_idents, first_ident, is_ident, attr_from_ident_str,
  from_trait,
}
use actix_send.Macros.Info.{arg_ident, fallible, mapped_result}
use actix_send.Macros.HandlerTrait.{started, answering}
use actix_send.Macros.ModConversions.{message_variant, result_variant, conversions}
use actix_send.Macros.ModMessages.{MessageParam, Collected, collect, without_message}

-- An entry of `handle_methods`.
pub record HandleMethod : Type 0 where
  pub arg_ident : Ident
  pub ident : Ident
  pub stmts : Block

-- The first item of an `impl` that has the handler attribute, if it is a method.
handler_method : Item → Option Method
handler_method (item_impl item) = elim (is_ident item.attrs "handler") [
  | none ↦ none
  | some _ ↦ elim (item.items) [ [] ↦ none | impl_method method ∷ _ ↦ some method | _ ∷ _ ↦ none ]
]
handler_method _ = none

-- The second argument, whose type is a path.
read_method : Method → Option HandleMethod
read_method method = elim (method.sig.inputs) [
  | _ ∷ typed pat (type_path path) ∷ _ ↦ elim (first_ident path) [
    | none ↦ none
    | some i ↦ some (record { arg_ident = arg_ident pat; ident = i; stmts = method.block })
  ]
  | _ ↦ none
]

unfoldable pub handle_methods : List Item → Option (List HandleMethod)
unfolding handler_method read_method
handle_methods [] = some []
handle_methods (item ∷ items) =
    let rest = handle_methods items in
    elim (handler_method item) [
      | none ↦ rest
      | some method ↦ elim (read_method method) [
        | none ↦ none
        | some m ↦ elim rest [ none ↦ none | some ms ↦ some (m ∷ ms) ]
      ]
    ]

-- What is no handler.
is_kept : Item → Bool
is_kept (item_impl item) = elim (is_ident item.attrs "handler") [ none ↦ true | some _ ↦ false ]
is_kept _ = true

unfoldable pub without_handlers : List Item → List Item
unfolding is_kept
without_handlers [] = []
without_handlers (item ∷ items) =
    let rest = without_handlers items in if is_kept item then item ∷ rest else rest

-- `find_map`: the first method for a message.
abbrev pub method_of : Ident → List HandleMethod → Option HandleMethod
method_of i [] = none
method_of i (m ∷ methods) = let rest = method_of i methods in if m.ident == i then some m else rest

-- The arms of the handle method; a message without a method panics.
unfoldable pub arms : Ident → Ident → List HandleMethod → List MessageParam → Option Arms
arms message_enum_ident result_enum_ident methods [] = some no_arms
arms message_enum_ident result_enum_ident methods (p ∷ params) =
    let rest = arms message_enum_ident result_enum_ident methods params in
    elim (method_of p.message_ident methods) [
      | none ↦ none
      | some m ↦ elim rest [
        | none ↦ none
        | some others ↦ some (
            arm
              (tuple_struct (path_from_ident_str (message_enum_ident ∷ p.message_ident ∷ []))
                m.arg_ident)
              (answering result_enum_ident p.message_ident (started (not p.is_blocking) m.stmts))
              others)
      ]
    ]

-- `impl Handler for Actor`, around the arms.
pub handle_item : Ident → Ident → Ident → Arms → Item
handle_item actor_ident message_enum_ident result_enum_ident match_arms =
    let method : Method = record {
      attrs = [];
      sig = record {
        asyncness = true;
        ident = "handle";
        inputs =
            receiver
            ∷ typed (pat_ident "msg") (type_path (type_path_from_idents (message_enum_ident ∷ [])))
            ∷ [];
        output = some (type_path (type_path_from_idents (result_enum_ident ∷ [])));
      };
      block = stmts (stmt_expr (expr_match (path_from_ident_str ("msg" ∷ [])) match_arms));
    } in
    item_impl (record {
      attrs = attr_from_ident_str ("handler" ∷ []) ∷ [];
      trait_ = some (path_from_ident_str ("Handler" ∷ []));
      self_ty = type_path (type_path_from_idents (actor_ident ∷ []));
      items = impl_method method ∷ [];
    })

-- `impl Actor` with the two empty hooks.
empty_hook : Ident → ImplItem
empty_hook name = impl_method (record {
  attrs = [];
  sig = record { asyncness = true; ident = name; inputs = receiver ∷ []; output = none };
  block = stmts no_stmts;
})

pub dummy_hooks : Ident → Item
unfolding empty_hook
dummy_hooks actor_ident = item_impl (record {
  attrs = [];
  trait_ = none;
  self_ty = type_path (type_path_from_idents (actor_ident ∷ []));
  items = empty_hook "__on_start" ∷ empty_hook "__on_stop" ∷ [];
})

-- The two enums.
pub message_enum : Ident → Collected → ItemEnum
message_enum message_enum_ident c = record {
  attrs = without_message c.attributes;
  ident = message_enum_ident;
  variants = map message_variant c.message_params;
}

pub result_enum : Ident → Collected → ItemEnum
result_enum result_enum_ident c = record {
  attrs = [];
  ident = result_enum_ident;
  variants = map result_variant c.message_params;
}

-- The items with the conversions and the enums behind them.
pub pack : List Item → Collected → List Item
unfolding conversions message_enum result_enum
pack items c =
    let message_enum_ident = concat c.actor_ident_str "Message" in
    let result_enum_ident = concat c.actor_ident_str "Result" in
    items
    ++ (conversions message_enum_ident result_enum_ident c.message_params
        ++ item_enum (message_enum message_enum_ident c)
          ∷ item_enum (result_enum result_enum_ident c)
          ∷ [])

-- The items of the module, and the `impl` beside it.
pub record Module : Type 0 where
  pub items : List Item
  pub hooks : Item

-- `Ident::new` panics on an empty text.
abbrev pub new_ident : Ident → Option Ident
new_ident i = if i == "" then none else some i

finish : List Item → Collected → Option Module
unfolding pack handle_methods handle_item dummy_hooks
finish items c =
    let packed = pack items c in
    let message_enum_ident = concat c.actor_ident_str "Message" in
    let result_enum_ident = concat c.actor_ident_str "Result" in
    elim (handle_methods packed) [
      | none ↦ none
      | some methods ↦ elim (new_ident c.actor_ident_str) [
        | none ↦ none
        | some actor_ident ↦
            elim (arms message_enum_ident result_enum_ident methods c.message_params) [
              | none ↦ none
              | some match_arms ↦ some (record {
                items =
                    without_handlers packed
                    ++ handle_item actor_ident message_enum_ident result_enum_ident match_arms ∷ [];
                hooks = dummy_hooks actor_ident;
              })
            ]
      ]
    ]

-- The items of a module, whose content is not empty.
pub actor_mod : (Text → Option Ty) → List Item → Option Module
unfolding finish
actor_mod parse_type items =
    elim (collect parse_type items
      (record { message_params = []; attributes = []; actor_ident_str = "" })) [
        | none ↦ none
        | some (items', c) ↦ finish items' c
      ]
