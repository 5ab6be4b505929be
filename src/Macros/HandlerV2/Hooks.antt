-- ===== src/Macros/HandlerV2/Hooks.antt =====
-- What `handler_v2` takes out of an `impl` block, and what it makes of the rest.
use mathlib.Core.List.{append_assoc, append-nil}
use actix_send.Prelude.{
  ◌≡◌, refl, ap, ◌∙◌, inl, inr, Bool-cases, Bool, not, ◌&&◌, ◌||◌, List, [], ◌∷◌, ◌++◌, Option,
  none, some, if◌then◌else◌,
}
use actix_send.Macros.Syntax.{Method, ImplItem, impl_method, impl_type, other_impl_item}
use actix_send.Macros.Build.{is_ident}
use actix_send.Macros.HandlerV2.{Retained, is_some, retain_item, retain_from, retain}

abbrev pub is_start : Method → Bool
is_start m = is_some (is_ident m.attrs "on_start")

abbrev pub is_stop : Method → Bool
is_stop m = not (is_start m) && is_some (is_ident m.attrs "on_stop")

abbrev pub or_else : Option Method → Option Method → Option Method
or_else none b = b
or_else (some a) b = some a

-- The last method that passes a test.
abbrev pub last_method : (Method → Bool) → List ImplItem → Option Method
last_method test [] = none
last_method test (impl_method m ∷ items) =
    or_else (last_method test items) (if test m then some m else none)
last_method test (_ ∷ items) = last_method test items

-- The methods that are no hook.
abbrev pub handle_items : List ImplItem → List ImplItem
handle_items [] = []
handle_items (impl_method m ∷ items) =
    if is_some (is_ident m.attrs "on_start") || is_some (is_ident m.attrs "on_stop")
    then handle_items items
    else impl_method m ∷ handle_items items
handle_items (_ ∷ items) = handle_items items

or_else-some :
    (a b : Option Method) (m : Method) → or_else (or_else a (some m)) b ≡ or_else a (some m)
or_else-some none b m = refl
or_else-some (some a) b m = refl

or_else-none : (a b : Option Method) → or_else (or_else a none) b ≡ or_else a b
or_else-none none b = refl
or_else-none (some a) b = refl

abbrev found_in : Retained → List ImplItem → Retained
found_in r items = record {
  on_start = or_else (last_method is_start items) r.on_start;
  on_stop = or_else (last_method is_stop items) r.on_stop;
  items = r.items ++ handle_items items;
}

retain_from_lem : (r : Retained) (items : List ImplItem) → retain_from r items ≡ found_in r items
unfolding retain_from retain_item
retain_from_lem r [] = rw (append-nil r.items) refl
retain_from_lem r (impl_method m ∷ items) = elim (Bool-cases (is_start m)) [
  | inl start ↦
      rw
        (
          start,
          or_else-some (last_method is_start items) r.on_start m,
          or_else-none (last_method is_stop items) r.on_stop,
        )
        (retain_from_lem (record r { on_start = some m }) items)
  | inr no_start ↦ elim (Bool-cases (is_some (is_ident m.attrs "on_stop"))) [
    | inl stop ↦
        rw
          (
            no_start,
            stop,
            or_else-none (last_method is_start items) r.on_start,
            or_else-some (last_method is_stop items) r.on_stop m,
          )
          (retain_from_lem (record r { on_stop = some m }) items)
    | inr no_stop ↦
        rw
          (
            no_start,
            no_stop,
            or_else-none (last_method is_start items) r.on_start,
            or_else-none (last_method is_stop items) r.on_stop,
          )
          (retain_from_lem (record r { items = r.items ++ impl_method m ∷ [] }) items
            ∙ ap (λ zs. record (found_in r items) { items = zs })
                (append_assoc r.items (impl_method m ∷ []) (handle_items items)))
  ]
]
retain_from_lem r (impl_type i ty ∷ items) = retain_from_lem r items
retain_from_lem r (other_impl_item n ∷ items) = retain_from_lem r items

-- `retain` takes the last method with an `on_start` attribute, and the last one that has an
-- `on_stop` attribute and no `on_start` attribute. It leaves the methods that have neither, in
-- order. An item that is no method is gone.
pub retain_lem :
    (items : List ImplItem)
    → retain items ≡ record {
      on_start = last_method is_start items;
      on_stop = last_method is_stop items;
      items = handle_items items;
    }
unfolding retain
retain_lem items =
    retain_from_lem (record { on_start = none; on_stop = none; items = [] }) items ∙ cong_hooks
  where
    or_else_nothing : (a : Option Method) → or_else a none ≡ a
    or_else_nothing none = refl
    or_else_nothing (some a) = refl

    cong_hooks : found_in (record { on_start = none; on_stop = none; items = [] }) items ≡ record {
      on_start = last_method is_start items;
      on_stop = last_method is_stop items;
      items = handle_items items;
    }
    cong_hooks =
        rw
          (
            or_else_nothing (last_method is_start items),
            or_else_nothing (last_method is_stop items),
          )
          refl
