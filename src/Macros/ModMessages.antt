-- ===== src/Macros/ModMessages.antt =====
-- The messages of a module, as `actor_mod` of actix-send-macros/src/lib.rs collects them.
pub mod Collecting
use text.Mathlib.Text.{◌==◌}
use actix_send.Prelude.{
  Bool, true, false, not, List, [], ◌∷◌, ◌++◌, Option, none, some, if◌then◌else◌,
}
use actix_send.Text.{Text}
use actix_send.Macros.Syntax.{Ident, Ty, Attribute, Declared, Item, item_struct, item_type}
use actix_send.Macros.Build.{first_ident, is_named, is_ident}
use actix_send.Macros.MessageAttr.{read_attr}

-- An entry of `message_params`, without the generics, which nothing reads.
pub record MessageParam : Type 0 where
  pub message_ident : Ident
  pub result_type : Ty
  pub is_blocking : Bool

-- `message_params`, `attributes` and `actor_ident_str`.
pub record Collected : Type 0 where
  pub message_params : List MessageParam
  pub attributes : List Attribute
  pub actor_ident_str : Ident

-- What follows a message attribute: the parameter and the attributes are kept, and the item
-- has no attribute any more.
take_message : Ty → Bool → Declared → Collected → Declared × Collected
take_message result_typ is_blocking item c = (
  record item { attrs = [] },
  record {
    message_params =
        c.message_params
        ++ record {
          message_ident = item.ident;
          result_type = result_typ;
          is_blocking = is_blocking;
        }
          ∷ [];
    attributes = c.attributes ++ item.attrs;
    actor_ident_str = c.actor_ident_str;
  },
)

note_actor : Declared × Collected → Declared × Collected
note_actor (item, c) = elim (is_ident item.attrs "actor") [
  | none ↦ (item, c)
  | some _ ↦ (item, record c { actor_ident_str = item.ident })
]

module _ (parse_type : Text → Option Ty) where
  -- The round of the loop for a struct or a type; a text that is no type panics.
  collect_declared : Declared → Collected → Option (Declared × Collected)
  unfolding take_message note_actor
  collect_declared item c = elim (is_ident item.attrs "message") [
    | none ↦ some (note_actor (item, c))
    | some attr ↦
        let (test, is_blocking) = read_attr attr.tokens in
        elim (parse_type test) [
          | none ↦ none
          | some result_typ ↦ some (note_actor (take_message result_typ is_blocking item c))
        ]
  ]

  collect_item : Item → Collected → Option (Item × Collected)
  unfolding collect_declared
  collect_item (item_struct item) c = elim (collect_declared item c) [
    | none ↦ none
    | some (item', c') ↦ some (item_struct item', c')
  ]
  collect_item (item_type item) c = elim (collect_declared item c) [
    | none ↦ none
    | some (item', c') ↦ some (item_type item', c')
  ]
  collect_item item c = some (item, c)

  -- `for item in items.iter_mut()`
  unfoldable pub collect : List Item → Collected → Option (List Item × Collected)
  unfolding collect_item
  collect [] c = some ([], c)
  collect (item ∷ items) c = elim (collect_item item c) [
    | none ↦ none
    | some (item', c') ↦ elim (collect items c') [
      | none ↦ none
      | some (items', c'') ↦ some (item' ∷ items', c'')
    ]
  ]

-- The attributes of the messages, without the message attributes.
unfoldable pub without_message : List Attribute → List Attribute
without_message [] = []
without_message (a ∷ attributes) =
    let rest = without_message attributes in
    if is_named (first_ident a.path) "message" then rest else a ∷ rest
