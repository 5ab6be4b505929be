-- ===== src/Macros/Counter.antt =====
-- An actor that counts, as the input of each macro of actix-send-macros, for instances of the theorems.
use actix_send.Prelude.{
  ℕ, Bool, true, false, List, [], ◌∷◌, ◌++◌, Option, none, some, ◌+◌, if◌then◌else◌,
}
use actix_send.Text.{Text, equal}
use actix_send.Runtime.{async_std}
use actix_send.Macros.Syntax.{
  Ident, Ty, type_path, other_type, pat_ident, user, Attribute, receiver, typed, Method, ImplItem,
  impl_method, impl_type, ItemImpl, Declared, Item, item_struct, item_type, item_impl,
}
use actix_send.Macros.Build.{type_path_from_idents, attr_from_ident_str}
use actix_send.Macros.Args.{NestedMeta, meta_path}
use actix_send.Macros.Info.{HandleMethodInfo}
use actix_send.Macros.MessageAttr.Read.{attr_text, blocking_text}
use actix_send.Macros.Meaning.{Host}
use actix_send.Macros.ModMessages.{MessageParam, Collected}
use actix_send.Macros.ActorMod.{HandleMethod}
use actix_send.Macros.ActorMod.Packed.{Handled}

abbrev pub named_type : Ident → Ty
named_type i = type_path (type_path_from_idents (i ∷ []))

-- An actor that counts, and whose bodies answer what they see of the message.
abbrev pub counting : Host
counting = record {
  V = ℕ;
  Actor = ℕ;
  run = λ c seen a. (elim (seen "msg") [ none ↦ 0 | some v ↦ v + c ], a + 1);
  compute = λ c seen. elim (seen "msg") [ none ↦ c | some v ↦ v ];
  runtime = async_std;
  joined = λ _. true;
}

abbrev pub hook : Ident → ℕ → Method
hook name c = record {
  attrs = attr_from_ident_str (name ∷ []) ∷ [];
  sig = record { asyncness = true; ident = name; inputs = receiver ∷ []; output = none };
  block = user c;
}

abbrev pub method : Bool → Ident → ℕ → Method
method asyncness message c = record {
  attrs = [];
  sig = record {
    asyncness = asyncness;
    ident = "handle_msg";
    inputs = receiver ∷ typed (pat_ident "msg") (named_type message) ∷ [];
    output = some (other_type 7);
  };
  block = user c;
}

abbrev pub counter_methods : List ImplItem
counter_methods =
    impl_method (hook "on_start" 1)
    ∷ impl_method (method true "Hello" 2)
    ∷ impl_type "Alias" (other_type 0)
    ∷ impl_method (method false "Work" 3)
    ∷ impl_method (hook "on_start" 4)
    ∷ []

abbrev pub counter_impl : ItemImpl
counter_impl = record {
  attrs = [];
  trait_ = none;
  self_ty = named_type "Counter";
  items = counter_methods;
}

abbrev pub info_of : Bool → Ident → ℕ → HandleMethodInfo
info_of asyncness message c = record {
  message_var_ident = "msg";
  message_type_path = type_path_from_idents (message ∷ []);
  message_return_type = some (other_type 7);
  method_block = user c;
  is_async = asyncness;
}

-- `u8`
abbrev pub u8 : Text
u8 = 117 ∷ 56 ∷ []

abbrev pub parse_u8 : Text → Option Ty
parse_u8 t = if equal t u8 then some (other_type 8) else none

abbrev pub message_of : Text → Attribute
message_of tokens = record (attr_from_ident_str ("message" ∷ [])) { tokens = tokens }

abbrev pub handler_of : Ident → ℕ → Item
handler_of message c = item_impl (record {
  attrs = attr_from_ident_str ("handler" ∷ []) ∷ [];
  trait_ = none;
  self_ty = named_type "Counter";
  items = impl_method (method true message c) ∷ [];
})

abbrev pub actor_item : Item
actor_item =
    item_struct
      (record { attrs = attr_from_ident_str ("actor" ∷ []) ∷ []; ident = "Counter"; rest = 0 })

abbrev pub declarations : List Item
declarations =
    actor_item
    ∷ item_struct (record { attrs = message_of (attr_text u8) ∷ []; ident = "Hello"; rest = 1 })
    ∷ item_type (record { attrs = message_of (blocking_text u8) ∷ []; ident = "Work"; rest = 2 })
    ∷ []

abbrev pub counter_items : List Item
counter_items = declarations ++ handler_of "Work" 3 ∷ handler_of "Hello" 2 ∷ []

abbrev pub bare_struct : Ident → ℕ → Declared
bare_struct i rest = record { attrs = []; ident = i; rest = rest }

abbrev pub left_items : List Item
left_items =
    actor_item ∷ item_struct (bare_struct "Hello" 1) ∷ item_type (bare_struct "Work" 2) ∷ []

abbrev pub hello_param : MessageParam
hello_param = record { message_ident = "Hello"; result_type = other_type 8; is_blocking = false }

abbrev pub work_param : MessageParam
work_param = record { message_ident = "Work"; result_type = other_type 8; is_blocking = true }

abbrev pub counter_collected : Collected
counter_collected = record {
  message_params = hello_param ∷ work_param ∷ [];
  attributes = message_of (attr_text u8) ∷ message_of (blocking_text u8) ∷ [];
  actor_ident_str = "Counter";
}

abbrev pub method_for : Ident → ℕ → HandleMethod
method_for i c = record { arg_ident = "msg"; ident = i; stmts = user c }

abbrev pub counter_handled : List Handled
counter_handled = (hello_param, method_for "Hello" 2) ∷ (work_param, method_for "Work" 3) ∷ []

abbrev pub no_send_args : List NestedMeta
no_send_args = meta_path (type_path_from_idents ("no_send" ∷ [])) ∷ []

abbrev pub counter_struct : Declared
counter_struct = record { attrs = []; ident = "Counter"; rest = 0 }
