-- ===== src/Macros/ModMessages/Collecting.antt =====
-- What the loop of `actor_mod` collects, item by item.
use mathlib.Core.List.{append_assoc, append-nil}
use actix_send.Prelude.{◌≡◌, refl, ap, ◌∙◌, List, [], ◌∷◌, ◌++◌, map, Option, none, some, arith}
use actix_send.Text.{Text}
use actix_send.Macros.Syntax.{
  Ident, Ty, Attribute, Declared, Item, item_struct, item_type, item_impl, item_enum, other_item,
}
use actix_send.Macros.Build.{is_ident}
use actix_send.Macros.MessageAttr.{read_attr}
use actix_send.Macros.ModMessages.{
  MessageParam, Collected, take_message, note_actor, collect_declared, collect_item, collect,
}

-- Nothing or one thing.
abbrev pub to_list {ℓ} : {A : Type ℓ} → Option A → List A
to_list none = []
to_list (some a) = a ∷ []

-- A struct or a type alias.
abbrev pub declaration : Item → Option Declared
declaration (item_struct d) = some d
declaration (item_type d) = some d
declaration _ = none

-- The message attribute, and the parameter that it gives.
abbrev pub message_attr : Item → Option (Declared × Attribute)
message_attr item = elim (declaration item) [
  | none ↦ none
  | some d ↦ elim (is_ident d.attrs "message") [ none ↦ none | some a ↦ some (d, a) ]
]

abbrev pub bare : Declared → Declared
bare d = record d { attrs = [] }

abbrev pub stripped : Declared → Declared
stripped d = elim (is_ident d.attrs "message") [ none ↦ d | some a ↦ bare d ]

abbrev pub strip : Item → Item
strip (item_struct d) = item_struct (stripped d)
strip (item_type d) = item_type (stripped d)
strip item = item

abbrev pub message_attributes : Item → List Attribute
message_attributes item = elim (message_attr item) [ none ↦ [] | some (d, a) ↦ d.attrs ]

-- The name of an item that is an actor and no message.
abbrev pub actor_name : Item → Option Ident
actor_name item = elim (declaration item) [
  | none ↦ none
  | some d ↦ elim (is_ident d.attrs "message") [
    | some a ↦ none
    | none ↦ elim (is_ident d.attrs "actor") [ none ↦ none | some a ↦ some d.ident ]
  ]
]

abbrev pub last_actor : Ident → List Item → Ident
last_actor i [] = i
last_actor i (item ∷ items) = elim (actor_name item) [
  | none ↦ last_actor i items
  | some j ↦ last_actor j items
]

abbrev pub attributes_of : List Item → List Attribute
attributes_of [] = []
attributes_of (item ∷ items) = message_attributes item ++ attributes_of items

module _ (parse_type : Text → Option Ty) where
  -- The parameters of an item: none, one, or a panic.
  abbrev pub params_of : Item → Option (List MessageParam)
  params_of item = elim (message_attr item) [
    | none ↦ some []
    | some (d, a) ↦
        let (test, is_blocking) = read_attr a.tokens in
        elim (parse_type test) [
          | none ↦ none
          | some ty ↦
              some (
                record { message_ident = d.ident; result_type = ty; is_blocking = is_blocking }
                ∷ [])
        ]
  ]

  abbrev pub all_params : List Item → Option (List MessageParam)
  all_params [] = some []
  all_params (item ∷ items) =
      let rest = all_params items in
      elim (params_of item) [
        | none ↦ none
        | some ps ↦ elim rest [ none ↦ none | some qs ↦ some (ps ++ qs) ]
      ]

  abbrev pub described : List Item → Collected → Option (List Item × Collected)
  described items c = elim (all_params items) [
    | none ↦ none
    | some ps ↦ some (
      map strip items,
      record {
        message_params = c.message_params ++ ps;
        attributes = c.attributes ++ attributes_of items;
        actor_ident_str = last_actor c.actor_ident_str items;
      },
    )
  ]

  abbrev after : Item → List MessageParam → Collected → Collected
  after item ps c = record {
    message_params = c.message_params ++ ps;
    attributes = c.attributes ++ message_attributes item;
    actor_ident_str = elim (actor_name item) [ none ↦ c.actor_ident_str | some j ↦ j ];
  }

  abbrev round : Item → Collected → Option (List MessageParam) → Option (Item × Collected)
  round item c none = none
  round item c (some ps) = some (strip item, after item ps c)

  nothing_lem :
      (c : Collected)
      → c ≡ record {
        message_params = c.message_params ++ [];
        attributes = c.attributes ++ [];
        actor_ident_str = c.actor_ident_str;
      }
  nothing_lem c = rw (append-nil c.message_params, append-nil c.attributes) refl

  collect_item_lem :
      (item : Item) (c : Collected) → collect_item parse_type item c ≡ round item c (params_of item)
  unfolding collect_item collect_declared take_message note_actor
  collect_item_lem (item_struct d) c = ground (arith, nothing_lem c)
  collect_item_lem (item_type d) c = ground (arith, nothing_lem c)
  collect_item_lem (item_impl i) c = ground (arith, nothing_lem c)
  collect_item_lem (item_enum e) c = ground (arith, nothing_lem c)
  collect_item_lem (other_item n) c = ground (arith, nothing_lem c)

  abbrev extended : Collected → List Item → List MessageParam → Collected
  extended c items ps = record {
    message_params = c.message_params ++ ps;
    attributes = c.attributes ++ attributes_of items;
    actor_ident_str = last_actor c.actor_ident_str items;
  }

  last_actor-cons :
      (i : Ident) (item : Item) (items : List Item)
      → last_actor i (item ∷ items)
        ≡ last_actor (elim (actor_name item) [ none ↦ i | some j ↦ j ]) items
  last_actor-cons i item items = ground arith

  extended-after :
      (c : Collected) (item : Item) (items : List Item) (ps qs : List MessageParam)
      → extended (after item ps c) items qs ≡ extended c (item ∷ items) (ps ++ qs)
  extended-after c item items ps qs =
      rw
        (
          append_assoc c.message_params ps qs,
          append_assoc c.attributes (message_attributes item) (attributes_of items),
          last_actor-cons c.actor_ident_str item items,
        )
        refl

  abbrev finished :
      List Item → Collected → Option (List MessageParam) → Option (List Item × Collected)
  finished items c none = none
  finished items c (some ps) = some (map strip items, extended c items ps)

  next_lem :
      (item : Item) (items : List Item) (c : Collected) (o rest : Option (List MessageParam))
      → collect_item parse_type item c ≡ round item c o
      → params_of item ≡ o
      → all_params items ≡ rest
      → ((c : Collected) → collect parse_type items c ≡ finished items c rest)
      → collect parse_type (item ∷ items) c ≡ described (item ∷ items) c
  unfolding collect
  next_lem item items c none rest here given others later = ground (arith, here, given)
  next_lem item items c (some ps) none here given others later =
      ground (arith, here, given, others, later (after item ps c))
  next_lem item items c (some ps) (some qs) here given others later =
      ground
        (arith, here, given, others, later (after item ps c), extended-after c item items ps qs)

  described_lem :
      (items : List Item) (c : Collected) → described items c ≡ finished items c (all_params items)
  described_lem items c = ground arith

  -- The loop of `actor_mod`, from any start and for any parser of types, answers what the items give
  -- one by one: it panics if the type of some message is not parsed; else every item with a message
  -- attribute has lost its attributes, the parameters of the messages and their attributes stand in
  -- the order of the items behind those of the start, and the actor is the last struct or type with
  -- an actor attribute and no message attribute.
  pub collect_lem :
      (items : List Item) (c : Collected) → collect parse_type items c ≡ described items c
  unfolding collect
  collect_lem [] c = ap (λ c. some ([], c)) (nothing_lem c)
  collect_lem (item ∷ items) c =
      next_lem item items c (params_of item) (all_params items) (collect_item_lem item c) refl refl
        (λ c. collect_lem items c ∙ described_lem items c)
