-- ===== src/Macros/Equal.antt =====
-- Equality of `syn` types, paths and attributes, which `handler` of actix-send-macros/src/lib.rs asks for.
use text.Mathlib.Text.{◌==◌ as same_name}
use actix_send.Prelude.{Bool, true, false, ◌&&◌, ◌||◌, List, [], ◌∷◌, ◌==◌}
use actix_send.Text.{equal}
use actix_send.Macros.Syntax.{
  Ty, type_path, empty_tuple, pinned_future, other_type, Segments, end, segment, Arguments, plain,
  angle_bracketed, parenthesized, Tys, no_types, type_and, Attribute,
}

abbrev same_flag : Bool → Bool → Bool
same_flag true true = true
same_flag false false = true
same_flag _ _ = false

mutual
  pub same_ty : Ty → Ty → Bool
  same_ty (type_path p) (type_path q) = same_segments p q
  same_ty empty_tuple empty_tuple = true
  same_ty (pinned_future s) (pinned_future t) = same_flag s t
  same_ty (other_type m) (other_type n) = m == n
  same_ty _ _ = false

  pub same_segments : Segments → Segments → Bool
  same_segments end end = true
  same_segments (segment i a p) (segment j b q) =
      same_name i j && (same_arguments a b && same_segments p q)
  same_segments _ _ = false

  pub same_arguments : Arguments → Arguments → Bool
  same_arguments plain plain = true
  same_arguments (angle_bracketed s) (angle_bracketed t) = same_tys s t
  same_arguments (parenthesized s) (parenthesized t) = same_tys s t
  same_arguments _ _ = false

  pub same_tys : Tys → Tys → Bool
  same_tys no_types no_types = true
  same_tys (type_and t ts) (type_and u us) = same_ty t u && same_tys ts us
  same_tys _ _ = false

unfoldable pub same_attribute : Attribute → Attribute → Bool
unfolding same_segments
same_attribute a b = same_segments a.path b.path && equal a.tokens b.tokens

-- `attrs.contains(…)`
unfoldable pub has_attr : List Attribute → Attribute → Bool
has_attr [] attr = false
has_attr (a ∷ attrs) attr = same_attribute a attr || has_attr attrs attr
