-- ===== src/Macros/Attributes/Hooks.antt =====
-- How the hooks of `actor` reach the hook methods that `handler_v2` takes out of an `impl` block.
use text.Mathlib.Text.{◌==◌}
use actix_send.Prelude.{
  ◌≡◌, refl, ap, ◌∙◌, false, not, ◌&&◌, List, [], ◌∷◌, Option, none, some, if◌then◌else◌,
}
use actix_send.Macros.Syntax.{
  Ident, end, segment, plain, call, await, async_move, self_method, Block, stmts, no_stmts,
  stmt_expr, Declared, Method, ImplItem, impl_method, ItemImpl, Item, item_struct, item_impl,
}
use actix_send.Macros.Args.{NestedMeta, has_flag}
use actix_send.Macros.Meaning.Items.{is_plain, find_impl}
use actix_send.Macros.Meaning.Find.{as_impl}
use actix_send.Macros.HandlerV2.{Expanded, hook_method, handler_v2}
use actix_send.Macros.HandlerV2.Hooks.{last_method, is_start, is_stop}
use actix_send.Macros.HandlerV2.Sends.{hooks_of, handler_v2-hooks_of}
use actix_send.Macros.Attributes.{actor, static_items, actor_impl, hook_fn, boxed}

abbrev pub method_named : Ident → List ImplItem → Option Method
method_named name [] = none
method_named name (impl_method m ∷ items) =
    let rest = method_named name items in if m.sig.ident == name then some m else rest
method_named name (_ ∷ items) = method_named name items

-- The method that a boxed future of the form `Box::pin(async move { self.hook().await })` awaits.
abbrev pub awaited : Block → Option Ident
awaited
      (stmts (
        stmt_expr (
          call
            (segment b plain (segment p plain end))
            (async_move (stmts (stmt_expr (await (self_method i)))))))) =
    if (b == "Box") && (p == "pin") then some i else none
awaited _ = none

abbrev pub impl_items : Option ItemImpl → List ImplItem
impl_items none = []
impl_items (some i) = i.items

-- The items of the first `impl Actor`.
abbrev pub actor_items : List Item → List ImplItem
actor_items items = impl_items (find_impl (λ i. is_plain i.trait_ "Actor") items)

abbrev pub block_of : Option Method → Option Block
block_of none = none
block_of (some m) = some m.block

-- The body that a method of `impl Actor` awaits, among the methods beside it.
abbrev pub awaited_body : Option Ident → List ImplItem → Option Block
awaited_body none beside = none
awaited_body (some i) beside = block_of (method_named i beside)

abbrev pub hook_body : Option Method → List ImplItem → Option Block
hook_body none beside = none
hook_body (some m) beside = awaited_body (awaited m.block) beside

abbrev pub body_or_empty : Option Method → Block
body_or_empty none = stmts no_stmts
body_or_empty (some m) = m.block

hook_method-block :
    (i name : Ident) (hook : Option Method) → (hook_method i name hook).block ≡ body_or_empty hook
unfolding hook_method
hook_method-block i name none = refl
hook_method-block i name (some m) = refl

hook_method-ident :
    (i name : Ident) (hook : Option Method) → (hook_method i name hook).sig.ident ≡ i
unfolding hook_method
hook_method-ident i name none = refl
hook_method-ident i name (some m) = refl

method_named-hooks_of :
    (impl_item : ItemImpl)
    → (block_of (method_named "__on_start" (impl_items (as_impl (hooks_of impl_item))))
        ≡ some (body_or_empty (last_method is_start impl_item.items)))
      × (block_of (method_named "__on_stop" (impl_items (as_impl (hooks_of impl_item))))
          ≡ some (body_or_empty (last_method is_stop impl_item.items)))
method_named-hooks_of impl_item =
    let start = last_method is_start impl_item.items in
    let stop = last_method is_stop impl_item.items in
    (
      rw (hook_method-ident "__on_start" "on_start" start)
          (ap some (hook_method-block "__on_start" "on_start" start)),
      rw
          (
            hook_method-ident "__on_start" "on_start" start,
            hook_method-ident "__on_stop" "on_stop" stop,
          )
          (ap some (hook_method-block "__on_stop" "on_stop" stop)),
    )

-- For a struct on which `actor` has no flag `no_static`, and an `impl` block for which `handler_v2`
-- writes code: `actor` writes code, in which `on_start` awaits a method beside it whose body is that
-- of the last start hook of the block, and `on_stop` one whose body is that of the last stop hook;
-- without such a hook the body is empty.
pub actor-handler_v2 :
    (args hook_args : List NestedMeta) (s : Declared) (impl_item : ItemImpl) (written : Expanded)
    → has_flag args "no_static" ≡ false
    → handler_v2 hook_args (item_impl impl_item) ≡ some written
    → (out : List Item) × (actor args (item_struct s) ≡ some out)
      × (hook_body
            (method_named "on_start" (actor_items out))
            (impl_items (as_impl written.on_start_stop))
          ≡ some (body_or_empty (last_method is_start impl_item.items)))
      × (hook_body
            (method_named "on_stop" (actor_items out))
            (impl_items (as_impl written.on_start_stop))
          ≡ some (body_or_empty (last_method is_stop impl_item.items)))
unfolding actor static_items actor_impl hook_fn boxed find_impl
actor-handler_v2 args hook_args s impl_item written static expanded =
    let (start, stop) = method_named-hooks_of impl_item in
    let beside : List ImplItem = impl_items (as_impl (hooks_of impl_item)) in
    let same : impl_items (as_impl written.on_start_stop) ≡ beside =
      ap (λ item. impl_items (as_impl item))
        (handler_v2-hooks_of hook_args impl_item written expanded) in
    (
      item_struct s ∷ static_items (not (has_flag args "no_send")) s.ident,
      rw static refl,
      ap (λ items. block_of (method_named "__on_start" items)) same ∙ start,
      ap (λ items. block_of (method_named "__on_stop" items)) same ∙ stop,
    )
