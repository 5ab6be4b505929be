-- ===== src/Macros/HandlerV2/Finds.antt =====
-- Which of the items of `handler_v2` a call finds.
use text.Mathlib.TextPositions.{eq_refl}
use actix_send.Prelude.{
  ◌≡◌, refl, ap, ◌∙◌, Bool, true, false, List, [], ◌∷◌, ◌++◌, All, All-everywhere, All-append,
  All-zip,
}
use actix_send.Macros.Syntax.{Ident, Item}
use actix_send.Macros.Build.{get_ident, is_named}
use actix_send.Macros.Info.{HandleMethodInfo, from_item, map_result_item}
use actix_send.Macros.HandlerTrait.{handler_item}
use actix_send.Macros.Info.Generated.{name, IsNamed}
use actix_send.Macros.Meaning.Items.{is_from, is_handler, is_map_result, find_impl}
use actix_send.Macros.Meaning.Find.{
  as_impl, find_impl-skip, find_impl-first, find_impl-cons, IsFirst,
}
use actix_send.Macros.HandlerV2.Generate.{base, the_handler, froms, maps}

module _ (actor : Ident) (no_send : Bool) where
  pub find-handler :
      (hs : List HandleMethodInfo)
      → find_impl is_handler
          (froms actor hs ++ (maps actor hs ++ the_handler actor no_send hs ∷ []))
        ≡ as_impl (the_handler actor no_send hs)
  unfolding froms maps from_item map_result_item the_handler handler_item
  find-handler hs =
      find_impl-skip is_handler (λ k. from_item (base actor) k (name k)) hs
        (maps actor hs ++ the_handler actor no_send hs ∷ []) (All-everywhere (λ _. refl) hs)
      ∙ find_impl-skip is_handler (λ k. map_result_item (base actor) k (name k)) hs
          (the_handler actor no_send hs ∷ []) (All-everywhere (λ _. refl) hs)
      ∙ find_impl-cons is_handler (the_handler actor no_send hs) []

  -- A call of each kind finds the item that it is meant to find.
  module _ (before : List HandleMethodInfo) (h : HandleMethodInfo) (after : List HandleMethodInfo)
      (named : All IsNamed (before ++ h ∷ after)) (first : IsFirst before h) where
    abbrev hs : List HandleMethodInfo
    hs = before ++ h ∷ after

    abbrev rest : List Item
    rest = the_handler actor no_send hs ∷ []

    IsNamed-before : All IsNamed before
    IsNamed-before = (All-append IsNamed before (h ∷ after) named).0

    named_hit : is_named (get_ident h.message_type_path) (name h) ≡ true
    named_hit =
        let here : IsNamed h = (All-append IsNamed before (h ∷ after) named).1.0 in
        ap (λ o. is_named o (name h)) here ∙ eq_refl (name h)

    misses : All (λ k. is_named (get_ident k.message_type_path) (name h) ≡ false) before
    misses =
        All-zip (λ k e miss. ap (λ o. is_named o (name h)) e ∙ miss) before IsNamed-before first

    pub find-from :
        find_impl (is_from (name h)) (froms actor hs ++ (maps actor hs ++ rest))
        ≡ as_impl (from_item (base actor) h (name h))
    unfolding froms from_item
    find-from =
        find_impl-first (is_from (name h)) (λ k. from_item (base actor) k (name k)) before h after
          (maps actor hs ++ rest) misses named_hit

    pub find-map :
        find_impl (is_map_result (name h)) (froms actor hs ++ (maps actor hs ++ rest))
        ≡ as_impl (map_result_item (base actor) h (name h))
    unfolding froms maps from_item map_result_item
    find-map =
        find_impl-skip (is_map_result (name h)) (λ k. from_item (base actor) k (name k)) hs
          (maps actor hs ++ rest) (All-everywhere (λ _. refl) hs)
        ∙ find_impl-first (is_map_result (name h)) (λ k. map_result_item (base actor) k (name k))
            before h after rest misses named_hit
