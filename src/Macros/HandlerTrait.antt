-- ===== src/Macros/HandlerTrait.antt =====
-- `handler_trait` of actix-send-macros/src/message.rs: the handler that `handler_v2` generates.
use actix_send.Prelude.{Bool, true, false, List, [], ◌∷◌, ◌++◌, Option, none, some, if◌then◌else◌}
use actix_send.Text.{codes}
use actix_send.Macros.Syntax.{
  Ident, type_path, pat_ident, tuple_struct, Expr, expr_path, call, await, async_move, move_closure,
  expr_match, expr_block, Block, stmts, stmt_expr, stmt_local, Arms, no_arms, arm, Attribute,
  receiver, typed, Method, impl_method, Item, item_impl,
}
use actix_send.Macros.Build.{
  path_from_ident_str, type_path_from_idents, get_ident, attr_from_ident_str,
}
use actix_send.Macros.Info.{ActorInfo, HandleMethodInfo}

-- The future that an arm awaits: the async body, or the body on the blocking pool.
abbrev pub started : Bool → Block → Expr
started true block = async_move block
started false block = call (path_from_ident_str ("actix_send_blocking" ∷ [])) (move_closure block)

-- `{ let result = …; ActorResult::Message(result.await) }`
abbrev pub answering : Ident → Ident → Expr → Expr
answering result_enum_ident i future = expr_block (
    stmts (
      stmt_local "result" future (
        stmt_expr (
          call (path_from_ident_str (result_enum_ident ∷ i ∷ []))
            (await (expr_path (path_from_ident_str ("result" ∷ []))))))))

-- The arms of the handle method.
unfoldable pub handler_arms : ActorInfo → List HandleMethodInfo → Option Arms
handler_arms info [] = some no_arms
handler_arms info (handle ∷ handle_info) =
    let rest = handler_arms info handle_info in
    elim (get_ident handle.message_type_path) [
      | none ↦ none
      | some i ↦ elim rest [
        | none ↦ none
        | some arms ↦ some (
            arm
              (tuple_struct (path_from_ident_str (info.message_enum_ident ∷ i ∷ []))
                handle.message_var_ident)
              (answering info.result_enum_ident i (started handle.is_async handle.method_block))
              arms)
      ]
    ]

-- `impl Handler for Actor`, around the arms.
unfoldable pub handler_item : List Attribute → Ident → Ident → Ident → Arms → Item
handler_item attrs actor_ident message_enum_ident result_enum_ident arms =
    let method : Method = record {
      attrs = [];
      sig = record {
        asyncness = true;
        ident = "handle";
        inputs =
            receiver
            ∷ typed (pat_ident "msg") (type_path (type_path_from_idents (message_enum_ident ∷ [])))
            ∷ [];
        output = some (type_path (type_path_from_idents (result_enum_ident ∷ [])));
      };
      block = stmts (stmt_expr (expr_match (path_from_ident_str ("msg" ∷ [])) arms));
    } in
    item_impl (record {
      attrs = attrs;
      trait_ = some (path_from_ident_str ("Handler" ∷ []));
      self_ty = type_path (type_path_from_idents (actor_ident ∷ []));
      items = impl_method method ∷ [];
    })

-- `ActorInfo::handler_trait`
unfoldable pub handler_trait : List HandleMethodInfo → Bool → ActorInfo → Option ActorInfo
unfolding handler_arms
handler_trait handle_info no_send info = elim (handler_arms info handle_info) [
  | none ↦ none
  | some arms ↦
      let plain_attr = attr_from_ident_str ("handler" ∷ []) in
      let attrs =
        if no_send
        then record plain_attr { tokens = codes "(no_send)" } ∷ []
        else plain_attr ∷ [] in
      some (record info {
        items =
            info.items
            ++ handler_item attrs info.ident info.message_enum_ident info.result_enum_ident arms
              ∷ [];
      })
]
