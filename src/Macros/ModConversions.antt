-- ===== src/Macros/ModConversions.antt =====
-- The enum variants and conversions that `actor_mod` of actix-send-macros/src/lib.rs makes of its
-- messages.
use actix_send.Prelude.{false, not, List, [], ◌∷◌, some, if◌then◌else◌}
use actix_send.Macros.Syntax.{
  Ident, type_path, end, segment, angle_bracketed, no_types, type_and, pat_ident, tuple_struct,
  wild, expr_path, expr_match, expr_macro, stmts, stmt_expr, Arms, no_arms, arm, typed, Method,
  impl_method, impl_type, Variant, Item, item_impl,
}
use actix_send.Macros.Build.{path_from_ident_str, type_path_from_idents, from_trait}
use actix_send.Macros.Info.{fallible, mapped_result}
use actix_send.Macros.ModMessages.{MessageParam}

-- `variants`, for one message.
abbrev pub message_variant : MessageParam → Variant
message_variant p = record {
  ident = p.message_ident;
  ty = type_path (type_path_from_idents (p.message_ident ∷ []));
}

abbrev pub result_variant : MessageParam → Variant
result_variant p = record {
  ident = p.message_ident;
  ty = if p.is_blocking then fallible p.result_type else p.result_type;
}

-- `impl MapResult<ActorResult> for Message`
unfoldable pub map_arms : Ident → MessageParam → Arms
map_arms result_enum_ident p =
    arm (tuple_struct (path_from_ident_str (result_enum_ident ∷ p.message_ident ∷ [])) "result")
      (expr_path (mapped_result (not p.is_blocking)))
      (arm wild (expr_macro (path_from_ident_str ("unreachable" ∷ []))) no_arms)

unfoldable pub map_method : Ident → MessageParam → Method
unfolding map_arms
map_method result_enum_ident p = record {
  attrs = [];
  sig = record {
    asyncness = false;
    ident = "map";
    inputs =
        typed (pat_ident "msg") (type_path (type_path_from_idents (result_enum_ident ∷ []))) ∷ [];
    output = some (fallible (type_path (type_path_from_idents ("Self" ∷ "Output" ∷ []))));
  };
  block =
      stmts
        (stmt_expr (expr_match (path_from_ident_str ("msg" ∷ [])) (map_arms result_enum_ident p)));
}

unfoldable pub map_item : Ident → MessageParam → Item
unfolding map_method
map_item result_enum_ident p =
    let result_enum_type = type_path (type_path_from_idents (result_enum_ident ∷ [])) in
    item_impl (record {
      attrs = [];
      trait_ =
          some (segment "MapResult" (angle_bracketed (type_and result_enum_type no_types)) end);
      self_ty = type_path (type_path_from_idents (p.message_ident ∷ []));
      items = impl_type "Output" p.result_type ∷ impl_method (map_method result_enum_ident p) ∷ [];
    })

-- `items.push(impl_item)` and `items.push(impl_item2)`, for every message.
unfoldable pub conversions : Ident → Ident → List MessageParam → List Item
unfolding map_item
conversions message_enum_ident result_enum_ident [] = []
conversions message_enum_ident result_enum_ident (p ∷ params) =
    from_trait (type_path_from_idents (p.message_ident ∷ [])) p.message_ident message_enum_ident
      (type_path (type_path_from_idents (message_enum_ident ∷ [])))
    ∷ map_item result_enum_ident p
    ∷ conversions message_enum_ident result_enum_ident params
