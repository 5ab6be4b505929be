-- ===== src/Macros/ActorMod/Checks.antt =====
-- Instances of the theorems on `actor_mod` of actix-send-macros/src/lib.rs.
use mathlib.Core.List.{Perm}
use actix_send.Prelude.{◌≡◌, refl, false, [], ◌∷◌, ◌++◌, map, none, some}
use actix_send.Text.{contains, equal, split}
use actix_send.Macros.Info.{ActorInfo}
use actix_send.Macros.MessageAttr.{pop, pop_times, unquoted, last_part, read_attr}
use actix_send.Macros.Meaning.Items.{send_message}
use actix_send.Macros.HandlerV2.{generate}
use actix_send.Macros.HandlerV2.Answers.{direct, only}
use actix_send.Macros.ModMessages.{collect}
use actix_send.Macros.ModMessages.Collecting.{described, collect_lem}
use actix_send.Macros.ActorMod.{Module, handle_methods, without_handlers, dummy_hooks, actor_mod}
use actix_send.Macros.ActorMod.Packed.{as_info}
use actix_send.Macros.ActorMod.SameCode.{nothing_yet, with_attributes, actor_mod-generate}
use actix_send.Macros.ActorMod.Missing.{actor_mod_missing}
use actix_send.Macros.ActorMod.Sends.{actor_mod-send_message}
use actix_send.Macros.Counter.{
  counting, parse_u8, handler_of, declarations, counter_items, left_items, hello_param, work_param,
  counter_collected, method_for, counter_handled,
}

collect_lem_example :
    collect parse_u8 counter_items nothing_yet ≡ described parse_u8 counter_items nothing_yet
collect_lem_example = collect_lem parse_u8 counter_items nothing_yet

actor_mod-generate_example :
    (m : Module) × (info : ActorInfo) × (actor_mod parse_u8 counter_items ≡ some m)
    × (generate "Counter" (map as_info counter_handled) false ≡ some info)
    × (m.hooks ≡ dummy_hooks "Counter")
    × Perm m.items (
        without_handlers (left_items ++ handler_of "Work" 3 ∷ handler_of "Hello" 2 ∷ [])
        ++ (with_attributes counter_collected info ++ info.items))
unfolding collect handle_methods read_attr contains pop unquoted last_part split equal pop_times
actor_mod-generate_example =
    actor_mod-generate parse_u8 counter_items
      (left_items ++ handler_of "Work" 3 ∷ handler_of "Hello" 2 ∷ []) counter_collected
      (method_for "Work" 3 ∷ method_for "Hello" 2 ∷ []) counter_handled refl refl refl refl

actor_mod-send_message_example :
    (m : Module) × (actor_mod parse_u8 counter_items ≡ some m)
    × (send_message counting m.items "Work" 9 5 ≡ direct counting false 3 (only "msg" 9) 5)
unfolding collect handle_methods read_attr contains pop unquoted last_part split equal pop_times
    without_handlers
actor_mod-send_message_example =
    actor_mod-send_message counting parse_u8 counter_items
      (left_items ++ handler_of "Work" 3 ∷ handler_of "Hello" 2 ∷ []) counter_collected
      (method_for "Work" 3 ∷ method_for "Hello" 2 ∷ []) ((hello_param, method_for "Hello" 2) ∷ [])
      (work_param, method_for "Work" 3) [] 3 9 5 refl refl refl refl
      ((refl, refl, refl), ((refl, refl, refl), ((refl, refl, refl), tt))) (refl, tt) refl

actor_mod_missing_example : actor_mod parse_u8 (declarations ++ handler_of "Hello" 2 ∷ []) ≡ none
unfolding collect handle_methods read_attr contains pop unquoted last_part split equal pop_times
actor_mod_missing_example =
    actor_mod_missing parse_u8 (declarations ++ handler_of "Hello" 2 ∷ [])
      (left_items ++ handler_of "Hello" 2 ∷ []) counter_collected (method_for "Hello" 2 ∷ [])
      (hello_param ∷ []) work_param [] refl refl refl (refl, tt)
