-- ===== src/Macros/HandlerV2/Sends.antt =====
-- A message to an actor whose `impl` block went through `handler_v2`.
use actix_send.Prelude.{ℕ, ◌≡◌, refl, List, [], ◌∷◌, ◌++◌, none, some, All, arith}
use actix_send.Macros.Syntax.{Ident, impl_method, user, ItemImpl, Item, item_impl}
use actix_send.Macros.Args.{NestedMeta, has_flag}
use actix_send.Macros.Info.{ActorInfo, HandleMethodInfo}
use actix_send.Macros.Info.Generated.{name, IsNamed}
use actix_send.Macros.Meaning.{Host}
use actix_send.Macros.Meaning.Items.{send_message}
use actix_send.Macros.Meaning.Find.{IsFirst}
use actix_send.Macros.HandlerV2.{
  hook_method, collect_info, Expanded, type_ident, expand, generate, handler_v2,
}
use actix_send.Macros.HandlerV2.Hooks.{retain_lem, last_method, is_start, is_stop, handle_items}
use actix_send.Macros.HandlerV2.Answers.{direct, only, send_message-generate}

-- The hooks that `handler_v2` writes.
abbrev pub hooks_of : ItemImpl → Item
hooks_of impl_item = item_impl (record {
  attrs = [];
  trait_ = none;
  self_ty = impl_item.self_ty;
  items =
      impl_method (hook_method "__on_start" "on_start" (last_method is_start impl_item.items))
      ∷ impl_method (hook_method "__on_stop" "on_stop" (last_method is_stop impl_item.items))
      ∷ [];
})

-- What `handler_v2` writes when the conversions and the handler of its messages are `info`.
abbrev pub expanded : ItemImpl → ActorInfo → Expanded
expanded impl_item info = record {
  on_start_stop = hooks_of impl_item;
  message_enum = info.message_enum;
  result_enum = info.result_enum;
  items = info.items;
}

pub handler_v2-generate :
    (args : List NestedMeta) (impl_item : ItemImpl) (actor : Ident) (hs : List HandleMethodInfo)
    (info : ActorInfo)
    → type_ident impl_item.self_ty ≡ some actor
    → collect_info (handle_items impl_item.items) ≡ some hs
    → generate actor hs (has_flag args "no_send") ≡ some info
    → handler_v2 args (item_impl impl_item) ≡ some (expanded impl_item info)
unfolding handler_v2 expand
handler_v2-generate args impl_item actor hs info plain infos written =
    ground (arith, plain, retain_lem impl_item.items, infos, written)

-- For an `impl` block on a plain name whose methods other than the hooks each have a message, of a
-- plain name, and a method that is the first for its message and has a body of the user:
-- `handler_v2` writes code. In that code, sending the message runs that body with the message in the
-- method's variable, on the actor if the method is async and else on the blocking pool, and answers
-- with the body's value, or with the error or the panic of the pool. The hooks have the bodies of
-- the last start hook and of the last stop hook, or are empty.
pub handler_v2-send_message :
    (host : Host) (args : List NestedMeta) (impl_item : ItemImpl) (actor : Ident)
    (before : List HandleMethodInfo) (h : HandleMethodInfo) (after : List HandleMethodInfo) (c : ℕ)
    (v : host.V) (a : host.Actor)
    → type_ident impl_item.self_ty ≡ some actor
    → collect_info (handle_items impl_item.items) ≡ some (before ++ h ∷ after)
    → All IsNamed (before ++ h ∷ after)
    → IsFirst before h
    → h.method_block ≡ user c
    → (out : Expanded) × (handler_v2 args (item_impl impl_item) ≡ some out)
      × (send_message host out.items (name h) v a
          ≡ direct host h.is_async c (only h.message_var_ident v) a)
      × (out.on_start_stop ≡ hooks_of impl_item)
handler_v2-send_message host args impl_item actor before h after c v a plain infos named first
      body =
    let (info, written, sent) =
      send_message-generate host actor (has_flag args "no_send") before h after c v a named first
        body in
    (
      expanded impl_item info,
      handler_v2-generate args impl_item actor (before ++ h ∷ after) info plain infos written,
      sent,
      refl,
    )

-- The hooks do not depend on what becomes of the messages.
pub handler_v2-hooks_of :
    (args : List NestedMeta) (impl_item : ItemImpl) (out : Expanded)
    → handler_v2 args (item_impl impl_item) ≡ some out
    → out.on_start_stop ≡ hooks_of impl_item
unfolding handler_v2 expand
handler_v2-hooks_of args impl_item out written = ground (arith, written, retain_lem impl_item.items)
