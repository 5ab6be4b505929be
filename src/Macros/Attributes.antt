-- ===== src/Macros/Attributes.antt =====
-- The attribute macros `actor` and `handler` of actix-send-macros/src/lib.rs. An item that they do not
-- take panics, and is `none`.
pub mod Meeting
pub mod Hooks
use Prim.Native.String.{String}
use actix_send.Prelude.{
  Bool, true, false, not, List, [], ◌∷◌, ◌++◌, Option, none, some, if◌then◌else◌,
}
use actix_send.Text.{codes}
use actix_send.Macros.Syntax.{
  Ident, Ty, type_path, empty_tuple, pinned_future, pat_ident, Expr, call, await, async_move,
  self_method, stmts, no_stmts, stmt_expr, Attribute, receiver, typed, ImplItem, impl_method,
  impl_type, Item, item_struct, item_impl,
}
use actix_send.Macros.Build.{path_from_ident_str, type_path_from_idents, attr_from_ident_str}
use actix_send.Macros.Args.{NestedMeta, has_flag}
use actix_send.Macros.Info.{new_info}
use actix_send.Macros.Equal.{has_attr}

-- `Box::pin(async move { self.hook().await; })`; the semicolon is left out, as the hook answers `()`.
boxed : Ident → Expr
boxed hook =
    call (path_from_ident_str ("Box" ∷ "pin" ∷ []))
      (async_move (stmts (stmt_expr (await (self_method hook)))))

-- `fn on_start(&mut self) -> Pin<Box<dyn Future<Output = ()> + Send + '_>>`, or `on_stop`.
hook_fn : Bool → Ident → Ident → ImplItem
unfolding boxed
hook_fn send name hook = impl_method (record {
  attrs = [];
  sig = record {
    asyncness = false;
    ident = name;
    inputs = receiver ∷ [];
    output = some (pinned_future send);
  };
  block = stmts (stmt_expr (boxed hook));
})

-- `impl Actor for …`
actor_impl : Ident → List ImplItem → Item
actor_impl actor_ident items = item_impl (record {
  attrs = [];
  trait_ = some (path_from_ident_str ("Actor" ∷ []));
  self_ty = type_path (type_path_from_idents (actor_ident ∷ []));
  items = items;
})

-- An actor without static messages: no messages, and a handler that does nothing.
dummy_handler : Ident → Item
dummy_handler actor_ident = item_impl (record {
  attrs = attr_from_ident_str ("actix_send" ∷ "prelude" ∷ "async_trait" ∷ []) ∷ [];
  trait_ = some (path_from_ident_str ("Handler" ∷ []));
  self_ty = type_path (type_path_from_idents (actor_ident ∷ []));
  items =
      impl_method (record {
        attrs = [];
        sig = record {
          asyncness = true;
          ident = "handle";
          inputs = receiver ∷ typed (pat_ident "msg") empty_tuple ∷ [];
          output = none;
        };
        block = stmts no_stmts;
      })
      ∷ [];
})

no_static_items : Ident → List Item
unfolding actor_impl dummy_handler
no_static_items actor_ident =
    actor_impl actor_ident (impl_type "Message" empty_tuple ∷ impl_type "Result" empty_tuple ∷ [])
    ∷ dummy_handler actor_ident
    ∷ []

static_items : Bool → Ident → List Item
unfolding actor_impl hook_fn
static_items send struct_ident =
    let actor_info = new_info struct_ident in
    actor_impl actor_info.ident (
      impl_type "Message" (type_path (type_path_from_idents (actor_info.message_enum_ident ∷ [])))
      ∷ impl_type "Result" (type_path (type_path_from_idents (actor_info.result_enum_ident ∷ [])))
      ∷ hook_fn send "on_start" "__on_start"
      ∷ hook_fn send "on_stop" "__on_stop"
      ∷ [])
    ∷ []

-- `actor`, without the generics of the struct.
pub actor : List NestedMeta → Item → Option (List Item)
unfolding no_static_items static_items
actor args (item_struct struct_item) = some (
    item_struct struct_item
    ∷ (if has_flag args "no_static"
        then no_static_items struct_item.ident
        else static_items (not (has_flag args "no_send")) struct_item.ident))
actor args _ = none

abbrev pub async_trait_attr : Bool → Attribute
async_trait_attr no_send =
    let attr = attr_from_ident_str ("async_trait" ∷ []) in
    if no_send then record attr { tokens = codes "(?Send)" } else attr

-- `handler`
pub handler : List NestedMeta → Item → Option Item
handler args (item_impl impl_item) =
    let attr = async_trait_attr (has_flag args "no_send") in
    some (
      item_impl (
        if has_attr impl_item.attrs attr
        then impl_item
        else record impl_item { attrs = impl_item.attrs ++ attr ∷ [] }))
handler args _ = none
