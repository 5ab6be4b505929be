-- ===== src/Macros/Meaning/Items.antt =====
-- The meaning of a call of a generated method: which `impl` it finds among the items.
use text.Mathlib.Text.{◌==◌}
use actix_send.Prelude.{Bool, false, ◌&&◌, List, [], ◌∷◌, Option, none, some, if◌then◌else◌}
use actix_send.Macros.Syntax.{
  Ident, Ty, type_path, Segments, end, segment, plain, angle_bracketed, no_types, type_and, FnArg,
  receiver, typed, Method, ImplItem, impl_method, ItemImpl, Item, item_impl,
}
use actix_send.Macros.Build.{get_ident, is_named}
use actix_send.Macros.Info.{arg_ident}
use actix_send.Macros.Meaning.{Host, Datum, value, Ran, stuck, then_run, bind_var, eval_block}

abbrev pub ty_ident : Ty → Option Ident
ty_ident (type_path p) = get_ident p
ty_ident _ = none

-- `Trait<Arg>`: the trait's name and that of its argument.
abbrev pub is_generic : Option Segments → Ident → Option Ident → Bool
is_generic (some (segment t (angle_bracketed (type_and ty no_types)) end)) name none = t == name
is_generic (some (segment t (angle_bracketed (type_and ty no_types)) end)) name (some argument) =
    (t == name) && is_named (ty_ident ty) argument
is_generic _ name argument = false

abbrev pub is_plain : Option Segments → Ident → Bool
is_plain (some (segment t plain end)) name = t == name
is_plain _ name = false

-- `impl From<Message> for _`, `impl Handler for _` and `impl MapResult<_> for Message`.
abbrev pub is_from : Ident → ItemImpl → Bool
is_from i item = is_generic item.trait_ "From" (some i)

abbrev pub is_handler : ItemImpl → Bool
is_handler item = is_plain item.trait_ "Handler"

abbrev pub is_map_result : Ident → ItemImpl → Bool
is_map_result i item = is_generic item.trait_ "MapResult" none && is_named (ty_ident item.self_ty) i

unfoldable pub find_impl : (ItemImpl → Bool) → List Item → Option ItemImpl
find_impl test [] = none
find_impl test (item_impl item ∷ items) =
    let rest = find_impl test items in if test item then some item else rest
find_impl test (_ ∷ items) = find_impl test items

abbrev pub first_method : List ImplItem → Option Method
first_method [] = none
first_method (impl_method m ∷ items) = some m
first_method (_ ∷ items) = first_method items

abbrev pub parameter : List FnArg → Ident
parameter [] = "_msg"
parameter (receiver ∷ inputs) = parameter inputs
parameter (typed pat ty ∷ inputs) = arg_ident pat

module _ (host : Host) where
  open host use {V, Actor}

  abbrev pub call_method : Option Method → Datum host → Actor → Ran host
  call_method none d a = stuck
  call_method (some m) d a =
      eval_block host m.block (bind_var host (parameter m.sig.inputs) d (λ _. none)) a

  abbrev pub call_impl : Option ItemImpl → Datum host → Actor → Ran host
  call_impl none d a = stuck
  call_impl (some item) d a = call_method (first_method item.items) d a

  -- A message on its way: it becomes a variant, the actor handles that, and the answer is mapped
  -- back.
  unfoldable pub send_message : List Item → Ident → V → Actor → Ran host
  send_message items i v a =
      then_run host (call_impl (find_impl (is_from i) items) (value v) a) (λ msg a1.
        then_run host (call_impl (find_impl is_handler items) msg a1)
          (λ answer a2. call_impl (find_impl (is_map_result i) items) answer a2))
