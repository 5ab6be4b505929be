-- ===== src/Macros/Checks.antt =====
-- Instances of the theorems on the code of actix-send-macros.
use actix_send.Prelude.{◌≡◌, refl, true, false, List, [], ◌∷◌, some, if◌then◌else◌, arith}
use actix_send.Text.{codes, contains}
use actix_send.Macros.Syntax.{user, stmts, no_stmts, Item, item_struct, item_impl}
use actix_send.Macros.Args.{has_flag}
use actix_send.Macros.Info.{new_handle_info}
use actix_send.Macros.MessageAttr.{pop_times, read_attr}
use actix_send.Macros.MessageAttr.Read.{attr_text, blocking_text, read_attr_lem}
use actix_send.Macros.Meaning.Items.{send_message}
use actix_send.Macros.HandlerV2.{Expanded, handler_v2, collect_info, type_ident}
use actix_send.Macros.HandlerV2.Answers.{direct, only}
use actix_send.Macros.HandlerV2.Sends.{hooks_of, handler_v2-send_message}
use actix_send.Macros.Attributes.{actor}
use actix_send.Macros.Meaning.Find.{as_impl}
use actix_send.Macros.Attributes.Hooks.{
  method_named, actor_items, impl_items, hook_body, actor-handler_v2,
}
use actix_send.Macros.Attributes.Meeting.{
  declared, handle_sig, expected_sig, actor_meets_handler_v2,
}
use actix_send.Macros.Counter.{
  named_type, counting, counter_impl, info_of, u8, no_send_args, counter_struct,
}

handler_v2-send_message_example :
    (out : Expanded) × (handler_v2 [] (item_impl counter_impl) ≡ some out)
    × (send_message counting out.items "Work" 9 5 ≡ direct counting false 3 (only "msg" 9) 5)
    × (out.on_start_stop ≡ hooks_of counter_impl)
unfolding collect_info type_ident new_handle_info
handler_v2-send_message_example =
    handler_v2-send_message counting [] counter_impl "Counter" (info_of true "Hello" 2 ∷ [])
      (info_of false "Work" 3) [] 3 9 5 refl refl (refl, (refl, tt)) (refl, tt) refl

read_attr_lem_example :
    (read_attr (blocking_text u8) ≡ (u8, true))
    × (read_attr (attr_text u8)
        ≡ (if contains (codes "blocking") u8 then (pop_times 9 u8, true) else (u8, false)))
read_attr_lem_example =
    read_attr_lem u8
      ((ground arith, ground arith, ground arith), ((ground arith, ground arith, ground arith), tt))

actor_meets_handler_v2_example :
    (out : List Item) × (code : Expanded) × (actor no_send_args (item_struct counter_struct)
      ≡ some out)
    × (handler_v2 [] (item_impl counter_impl) ≡ some code)
    × (declared "Message" out ≡ some (named_type code.message_enum.ident))
    × (declared "Result" out ≡ some (named_type code.result_enum.ident))
    × (handle_sig code.items
        ≡ some
            (expected_sig (named_type code.message_enum.ident) (named_type code.result_enum.ident)))
unfolding has_flag collect_info type_ident new_handle_info
actor_meets_handler_v2_example =
    actor_meets_handler_v2 no_send_args [] counter_struct counter_impl
      (info_of true "Hello" 2 ∷ info_of false "Work" 3 ∷ []) refl refl refl (refl, (refl, tt))

-- What `handler_v2` writes for the counter.
abbrev written_counter : (out : Expanded) × (handler_v2 [] (item_impl counter_impl) ≡ some out)
unfolding collect_info type_ident new_handle_info
written_counter =
    let (out, written, sent, hooks) =
      handler_v2-send_message counting [] counter_impl "Counter" [] (info_of true "Hello" 2)
        (info_of false "Work" 3 ∷ []) 2 9 5 refl refl (refl, (refl, tt)) tt refl in
    (out, written)

actor-handler_v2_example :
    (out : List Item) × (actor no_send_args (item_struct counter_struct) ≡ some out)
    × (hook_body
          (method_named "on_start" (actor_items out))
          (impl_items (as_impl written_counter.0.on_start_stop))
        ≡ some (user 4))
    × (hook_body
          (method_named "on_stop" (actor_items out))
          (impl_items (as_impl written_counter.0.on_start_stop))
        ≡ some (stmts no_stmts))
unfolding has_flag
actor-handler_v2_example =
    actor-handler_v2 no_send_args [] counter_struct counter_impl written_counter.0 refl
      written_counter.1
