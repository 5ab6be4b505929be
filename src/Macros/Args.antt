-- ===== src/Macros/Args.antt =====
-- The arguments of the attribute macros of actix-send-macros/src/lib.rs.
use text.Mathlib.Text.{◌==◌}
use actix_send.Prelude.{Bool, false, ◌||◌, List, [], ◌∷◌}
use actix_send.Macros.Syntax.{Ident, Segments, end, segment}

-- `NestedMeta`: a path, or anything else.
pub data NestedMeta : Type 0 where
  meta_path : Segments → NestedMeta
  other_meta : NestedMeta

-- `segments.iter().any(…)`
any_segment : Segments → Ident → Bool
any_segment end name = false
any_segment (segment i _ path) name = i == name || any_segment path name

-- Whether a flag such as `no_send` is among the arguments, in any segment of a path.
unfoldable pub has_flag : List NestedMeta → Ident → Bool
unfolding any_segment
has_flag [] name = false
has_flag (meta_path path ∷ args) name = any_segment path name || has_flag args name
has_flag (other_meta ∷ args) name = has_flag args name
