-- ===== src/Macros/ActorMod/Sends.antt =====
-- A message to an actor whose module went through `actor_mod`.
use text.Mathlib.Text.{◌==◌}
use text.Mathlib.TextPositions.{eq_refl}
use mathlib.Core.List.{append_assoc}
use Prim.Native.String.{◌++◌ as concat}
use actix_send.Prelude.{
  ℕ, ◌≡◌, refl, ap, ◌∙◌, Bool, false, not, List, [], ◌∷◌, ◌++◌, map, Option, some, All,
  All-everywhere,
}
use actix_send.Text.{Text}
use actix_send.Macros.Syntax.{Ident, Ty, user, Item, ItemImpl}
use actix_send.Macros.Build.{from_trait}
use actix_send.Macros.Info.{new_info, from_item, map_result_item}
use actix_send.Macros.HandlerTrait.{handler_item}
use actix_send.Macros.Info.Generated.{name}
use actix_send.Macros.Meaning.{Host}
use actix_send.Macros.Meaning.Items.{is_from, is_handler, is_map_result, find_impl, send_message}
use actix_send.Macros.Meaning.Find.{as_impl, hits, IsFirst}
use actix_send.Macros.Meaning.Pairs.{
  find_impl_foreign, All-map, pairs, find_impl-pairs, find_impl_one, find_impl_two,
}
use actix_send.Macros.HandlerV2.Generate.{base, the_handler}
use actix_send.Macros.HandlerV2.Answers.{direct, only, send_message-found}
use actix_send.Macros.ModMessages.{Collected, collect}
use actix_send.Macros.ActorMod.{HandleMethod, handle_methods, without_handlers, Module, actor_mod}
use actix_send.Macros.ModConversions.{conversions, map_item, map_method, map_arms}
use actix_send.Macros.ActorMod.Packed.{
  Handled, with_methods, as_info, enums, conversions_of, without_handlers-pack, params_of,
}
use actix_send.Macros.ActorMod.SameCode.{nothing_yet, module_of, actor_mod_lem}

abbrev me : Ident → Ident
me actor = concat actor "Message"

abbrev re : Ident → Ident
re actor = concat actor "Result"

abbrev from_of : Ident → Handled → Item
from_of actor h = from_item (base actor) (as_info h) (name (as_info h))

abbrev map_of : Ident → Handled → Item
map_of actor h = map_result_item (base actor) (as_info h) (name (as_info h))

conversions-pairs :
    (actor : Ident) (hs : List Handled)
    → conversions (me actor) (re actor) (params_of hs) ≡ pairs (from_of actor) (map_of actor) hs
unfolding conversions base new_info from_trait from_item map_item map_method map_arms
    map_result_item
conversions-pairs actor [] = refl
conversions-pairs actor (h ∷ hs) =
    ap (λ items. from_of actor h ∷ map_of actor h ∷ items) (conversions-pairs actor hs)

abbrev IsOther : Handled → Handled → Type 0
IsOther h k = (k.0.message_ident == h.0.message_ident) ≡ false

IsFirst-others :
    (before : List Handled) (h : Handled)
    → All (IsOther h) before
    → IsFirst (map as_info before) (as_info h)
IsFirst-others [] h others = tt
IsFirst-others (k ∷ before) h others = (others.0, IsFirst-others before h others.1)

map-append :
    (xs : List Handled) (h : Handled) (ys : List Handled)
    → map as_info (xs ++ h ∷ ys) ≡ map as_info xs ++ as_info h ∷ map as_info ys
map-append [] h ys = refl
map-append (x ∷ xs) h ys = ap (λ zs. as_info x ∷ zs) (map-append xs h ys)

-- An item of the user that no call of the message finds.
abbrev pub IsForeign : Ident → Item → Type 0
IsForeign i item =
    (hits (is_from i) (as_impl item) ≡ false)
    × (hits is_handler (as_impl item) ≡ false)
    × (hits (is_map_result i) (as_impl item) ≡ false)

module _ (left : List Item) (c : Collected) (before : List Handled) (h : Handled)
    (after : List Handled) (names : c.message_params ≡ params_of (before ++ h ∷ after))
    (foreign : All (IsForeign h.0.message_ident) (without_handlers left))
    (others : All (IsOther h) before) where
  abbrev hs : List Handled
  hs = before ++ h ∷ after

  abbrev actor : Ident
  actor = c.actor_ident_str

  abbrev handler : Item
  handler = the_handler actor false (map as_info hs)

  abbrev written_pairs : List Item
  written_pairs = pairs (from_of actor) (map_of actor) hs

  items_lem :
      (module_of left c hs).items
      ≡ without_handlers left ++ (written_pairs ++ (enums c ++ handler ∷ []))
  items_lem =
      ap (λ xs. xs ++ handler ∷ []) (without_handlers-pack left c)
      ∙ append_assoc (without_handlers left) (conversions_of c ++ enums c) (handler ∷ [])
      ∙ ap (λ xs. without_handlers left ++ xs)
          (append_assoc (conversions_of c) (enums c) (handler ∷ [])
            ∙ ap (λ xs. xs ++ (enums c ++ handler ∷ []))
                (ap (conversions (me actor) (re actor)) names ∙ conversions-pairs actor hs))

  -- A call passes the items of the user.
  find_impl_items :
      (test : ItemImpl → Bool)
      → All (λ x. hits test (as_impl x) ≡ false) (without_handlers left)
      → find_impl test (module_of left c hs).items
        ≡ find_impl test (written_pairs ++ (enums c ++ handler ∷ []))
  find_impl_items test miss =
      ap (find_impl test) items_lem ∙ find_impl_foreign test (without_handlers left) _ miss

  find-from :
      find_impl (is_from h.0.message_ident) (module_of left c hs).items ≡ as_impl (from_of actor h)
  unfolding from_item map_result_item base new_info
  find-from =
      find_impl_items (is_from h.0.message_ident)
        (All-map (λ x f. f.0) (without_handlers left) foreign)
      ∙ find_impl_one (is_from h.0.message_ident) (from_of actor) (map_of actor) before h after _
          (All-map (λ k other. (other, refl)) before others) (eq_refl h.0.message_ident)

  find-handler : find_impl is_handler (module_of left c hs).items ≡ as_impl handler
  unfolding from_item map_result_item base new_info find_impl the_handler handler_item
  find-handler =
      find_impl_items is_handler (All-map (λ x f. f.1) (without_handlers left) foreign)
      ∙ find_impl-pairs is_handler (from_of actor) (map_of actor) hs _
          (All-everywhere (λ _. (refl, refl)) hs)
      ∙ refl

  find-map :
      find_impl (is_map_result h.0.message_ident) (module_of left c hs).items
      ≡ as_impl (map_of actor h)
  unfolding from_item map_result_item base new_info
  find-map =
      find_impl_items (is_map_result h.0.message_ident)
        (All-map (λ x f. f.2) (without_handlers left) foreign)
      ∙ find_impl_two (is_map_result h.0.message_ident) (from_of actor) (map_of actor) before h
          after _ (All-map (λ k other. (refl, other)) before others) refl
          (eq_refl h.0.message_ident)

-- For a module whose items the loop of `actor_mod` collects, which has a named actor, whose handlers
-- `handle_methods` reads so that every message has a method, and which has no other `impl` that a
-- call of the message in question would find: `actor_mod` writes a module. In it, sending a message
-- whose parameter is the first of its name, and whose method has a body of the user, runs that body
-- with the message in the method's variable, on the blocking pool if the message is blocking and
-- else on the actor, and answers with the body's value, or with the error or the panic of the pool.
pub actor_mod-send_message :
    (host : Host) (parse_type : Text → Option Ty) (items left : List Item) (c : Collected)
    (methods : List HandleMethod) (before : List Handled) (h : Handled) (after : List Handled)
    (code : ℕ) (v : host.V) (a : host.Actor)
    → collect parse_type items nothing_yet ≡ some (left, c)
    → handle_methods left ≡ some methods
    → with_methods methods c.message_params ≡ some (before ++ h ∷ after)
    → (c.actor_ident_str == "") ≡ false
    → All (IsForeign h.0.message_ident) (without_handlers left)
    → All (IsOther h) before
    → h.1.stmts ≡ user code
    → (m : Module) × (actor_mod parse_type items ≡ some m)
      × (send_message host m.items h.0.message_ident v a
          ≡ direct host (not h.0.is_blocking) code (only h.1.arg_ident v) a)
actor_mod-send_message host parse_type items left c methods before h after code v a collected found
      handled named foreign others body =
    let (names, written) =
      actor_mod_lem parse_type items left c methods (before ++ h ∷ after) collected found handled
        named in
    (
      module_of left c (before ++ h ∷ after),
      written,
      send_message-found host c.actor_ident_str false (map as_info before) (as_info h)
          (map as_info after) code v a (module_of left c (before ++ h ∷ after)).items
          (find-from left c before h after names foreign others)
          (find-handler left c before h after names foreign others
            ∙ ap (λ hs. as_impl (the_handler c.actor_ident_str false hs))
                (map-append before h after))
          (find-map left c before h after names foreign others) (IsFirst-others before h others)
          body,
    )
