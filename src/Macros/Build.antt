-- ===== src/Macros/Build.antt =====
-- The helper functions of actix-send-macros/src/lib.rs, and what the macros use of `syn` on paths.
use text.Mathlib.Text.{◌==◌}
use actix_send.Prelude.{Bool, false, List, [], ◌∷◌, Option, none, some, if◌then◌else◌}
use actix_send.Macros.Syntax.{
  Ident, Ty, type_path, Segments, end, segment, plain, angle_bracketed, no_types, type_and,
  pat_ident, expr_path, call, stmts, stmt_expr, Attribute, typed, Method, impl_method, Item,
  item_impl,
}

-- `path_from_ident_str` and `type_path_from_idents`: a path with no arguments.
abbrev pub path_from_ident_str : List Ident → Segments
path_from_ident_str [] = end
path_from_ident_str (i ∷ is) = segment i plain (path_from_ident_str is)

abbrev pub type_path_from_idents : List Ident → Segments
type_path_from_idents [] = end
type_path_from_idents (i ∷ is) = segment i plain (type_path_from_idents is)

-- `Path::get_ident`
abbrev pub get_ident : Segments → Option Ident
get_ident (segment i plain end) = some i
get_ident _ = none

-- The name of the first segment.
abbrev pub first_ident : Segments → Option Ident
first_ident end = none
first_ident (segment i _ _) = some i

abbrev pub is_named : Option Ident → Ident → Bool
is_named none name = false
is_named (some i) name = i == name

-- `is_ident`: the first attribute whose path begins with the name.
abbrev pub is_ident : List Attribute → Ident → Option Attribute
is_ident [] ident_str = none
is_ident (a ∷ attrs) ident_str =
    let rest = is_ident attrs ident_str in
    if is_named (first_ident a.path) ident_str then some a else rest

abbrev pub attr_from_ident_str : List Ident → Attribute
attr_from_ident_str ident_str = record { path = path_from_ident_str ident_str; tokens = [] }

-- `from_trait`: `impl From<Source> for Enum { fn from(msg: Source) -> Enum { Enum::Source(msg) } }`.
unfoldable pub from_trait : Segments → Ident → Ident → Ty → Item
from_trait source_type_path source_ident message_enum_ident message_enum_type =
    let path =
      segment "From" (angle_bracketed (type_and (type_path source_type_path) no_types)) end in
    let variant = path_from_ident_str (message_enum_ident ∷ source_ident ∷ []) in
    let method : Method = record {
      attrs = [];
      sig = record {
        asyncness = false;
        ident = "from";
        inputs = typed (pat_ident "msg") (type_path source_type_path) ∷ [];
        output = some (type_path (type_path_from_idents (message_enum_ident ∷ [])));
      };
      block = stmts (stmt_expr (call variant (expr_path (path_from_ident_str ("msg" ∷ [])))));
    } in
    item_impl (record {
      attrs = [];
      trait_ = some path;
      self_ty = message_enum_type;
      items = impl_method method ∷ [];
    })
