-- ===== src/Macros/Info.antt =====
-- actix-send-macros/src/message.rs: the items that `handler_v2` generates for the handle methods of an
-- actor. An `unwrap` or `expect` that fails is `none`, and the macro panics.
pub mod Generated
use Prim.Native.String.{◌++◌ as concat}
use actix_send.Prelude.{Bool, true, false, List, [], ◌∷◌, ◌++◌, Option, none, some, if◌then◌else◌}
use actix_send.Text.{codes}
use actix_send.Macros.Syntax.{
  Ident, Ty, type_path, empty_tuple, Segments, end, segment, plain, angle_bracketed, parenthesized,
  no_types, type_and, Pat, pat_ident, tuple_struct, wild, Expr, expr_path, call, await, async_move,
  move_closure, expr_match, expr_block, expr_macro, Block, stmts, Stmts, stmt_expr, stmt_local,
  Arms, no_arms, arm, Attribute, FnArg, receiver, typed, Method, ImplItem, impl_method, impl_type,
  ItemImpl, Variant, ItemEnum, Item, item_impl,
}
use actix_send.Macros.Build.{
  path_from_ident_str, type_path_from_idents, get_ident, attr_from_ident_str,
}

pub record ActorInfo : Type 0 where
  pub ident : Ident
  pub message_enum_ident : Ident
  pub message_enum_type : Ty
  pub result_enum_ident : Ident
  pub message_enum : ItemEnum
  pub result_enum : ItemEnum
  pub items : List Item

-- `ActorInfo::new`
unfoldable pub new_info : Ident → ActorInfo
new_info ident =
    let message_enum_ident = concat ident "Message" in
    let result_enum_ident = concat ident "Result" in
    record {
      ident = ident;
      message_enum_ident = message_enum_ident;
      message_enum_type = type_path (type_path_from_idents (message_enum_ident ∷ []));
      result_enum_ident = result_enum_ident;
      message_enum = record { attrs = []; ident = message_enum_ident; variants = [] };
      result_enum = record { attrs = []; ident = result_enum_ident; variants = [] };
      items = [];
    }

pub record HandleMethodInfo : Type 0 where
  pub message_var_ident : Ident
  pub message_type_path : Segments
  pub message_return_type : Option Ty
  pub method_block : Block
  pub is_async : Bool

-- The variable of an argument; a pattern that is no variable is called `_msg`.
abbrev pub arg_ident : Pat → Ident
arg_ident (pat_ident i) = i
arg_ident _ = "_msg"

-- The first argument whose type is a path.
abbrev pub message_arg : List FnArg → Option (Ident × Segments)
message_arg [] = none
message_arg (typed pat (type_path path) ∷ _) = some (arg_ident pat, path)
message_arg (typed pat _ ∷ inputs) = message_arg inputs
message_arg (receiver ∷ inputs) = message_arg inputs

-- `HandleMethodInfo::new`
unfoldable pub new_handle_info : Method → Option HandleMethodInfo
new_handle_info method = elim (message_arg method.sig.inputs) [
  | none ↦ none
  | some (var, path) ↦ some (record {
    message_var_ident = var;
    message_type_path = path;
    message_return_type = method.sig.output;
    method_block = method.block;
    is_async = method.sig.asyncness;
  })
]

abbrev pub result_type : HandleMethodInfo → Ty
result_type handle = elim (handle.message_return_type) [ none ↦ empty_tuple | some ty ↦ ty ]

-- `Result<ty, ActixSendError>`
abbrev pub fallible : Ty → Ty
fallible ty = type_path (
    segment "Result"
      (angle_bracketed (
        type_and ty
          (type_and (type_path (type_path_from_idents ("ActixSendError" ∷ []))) no_types)))
      end)

-- The round of `enum_variants` for one method: a method that is not async runs on the blocking pool,
-- which may fail.
abbrev pub message_variant : HandleMethodInfo → Ident → Variant
message_variant handle i = record { ident = i; ty = type_path handle.message_type_path }

abbrev pub result_variant : HandleMethodInfo → Ident → Variant
result_variant handle i = record {
  ident = i;
  ty = if handle.is_async then result_type handle else fallible (result_type handle);
}

-- `ActorInfo::enum_variants`
unfoldable pub enum_variants : List HandleMethodInfo → ActorInfo → Option ActorInfo
enum_variants [] info = some info
enum_variants (handle ∷ handle_info) info = elim (get_ident handle.message_type_path) [
  | none ↦ none
  | some i ↦ enum_variants handle_info (record info {
    message_enum = record (info.message_enum) {
      variants = info.message_enum.variants ++ message_variant handle i ∷ [];
    };
    result_enum = record (info.result_enum) {
      variants = info.result_enum.variants ++ result_variant handle i ∷ [];
    };
  })
]

-- `impl From<Message> for ActorMessage`, for one method.
unfoldable pub from_item : ActorInfo → HandleMethodInfo → Ident → Item
from_item info handle i =
    let path =
      segment "From" (angle_bracketed (type_and (type_path handle.message_type_path) no_types))
        end in
    let variant = path_from_ident_str (info.message_enum_ident ∷ i ∷ []) in
    let method : Method = record {
      attrs = [];
      sig = record {
        asyncness = false;
        ident = "from";
        inputs = typed (pat_ident "msg") (type_path handle.message_type_path) ∷ [];
        output = some info.message_enum_type;
      };
      block = stmts (stmt_expr (call variant (expr_path (path_from_ident_str ("msg" ∷ [])))));
    } in
    item_impl (record {
      attrs = [];
      trait_ = some path;
      self_ty = info.message_enum_type;
      items = impl_method method ∷ [];
    })

-- The answer of an async method is wrapped in `Ok`, written as a path with an argument in
-- parentheses; that of a blocking method is a result already.
abbrev pub mapped_result : Bool → Segments
mapped_result true =
    segment "Ok"
      (parenthesized (type_and (type_path (type_path_from_idents ("result" ∷ []))) no_types)) end
mapped_result false = path_from_ident_str ("result" ∷ [])

-- `impl MapResult<ActorResult> for Message`, for one method.
unfoldable pub map_result_item : ActorInfo → HandleMethodInfo → Ident → Item
map_result_item info handle i =
    let result_enum_type = type_path (type_path_from_idents (info.result_enum_ident ∷ [])) in
    let path = segment "MapResult" (angle_bracketed (type_and result_enum_type no_types)) end in
    let arms =
      arm (tuple_struct (path_from_ident_str (info.result_enum_ident ∷ i ∷ [])) "result")
        (expr_path (mapped_result handle.is_async))
        (arm wild (expr_macro (path_from_ident_str ("unreachable" ∷ []))) no_arms) in
    let method : Method = record {
      attrs = [];
      sig = record {
        asyncness = false;
        ident = "map";
        inputs = typed (pat_ident "msg") result_enum_type ∷ [];
        output = some (fallible (type_path (type_path_from_idents ("Self" ∷ "Output" ∷ []))));
      };
      block = stmts (stmt_expr (expr_match (path_from_ident_str ("msg" ∷ [])) arms));
    } in
    item_impl (record {
      attrs = [];
      trait_ = some path;
      self_ty = type_path handle.message_type_path;
      items = impl_type "Output" (result_type handle) ∷ impl_method method ∷ [];
    })

-- The loops of `from_trait` and `map_result_trait`.
pub push_items :
    (ActorInfo → HandleMethodInfo → Ident → Item)
    → List HandleMethodInfo
    → ActorInfo
    → Option ActorInfo
push_items make [] info = some info
push_items make (handle ∷ handle_info) info = elim (get_ident handle.message_type_path) [
  | none ↦ none
  | some i ↦
      push_items make handle_info (record info { items = info.items ++ make info handle i ∷ [] })
]

-- `ActorInfo::from_trait`
unfoldable pub from_trait_items : List HandleMethodInfo → ActorInfo → Option ActorInfo
unfolding push_items
from_trait_items handle_info info = push_items from_item handle_info info

-- `ActorInfo::map_result_trait`
unfoldable pub map_result_trait : List HandleMethodInfo → ActorInfo → Option ActorInfo
unfolding push_items
map_result_trait handle_info info = push_items map_result_item handle_info info
