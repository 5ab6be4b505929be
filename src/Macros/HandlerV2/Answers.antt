-- ===== src/Macros/HandlerV2/Answers.antt =====
-- The items that `handler_v2` generates, run on a message.
use text.Mathlib.Text.{◌==◌}
use Prim.Native.String.{◌++◌ as concat}
use mathlib.Core.Path.{fun_ext}
use actix_send.Prelude.{
  ℕ, ◌≡◌, refl, ap, ◌∙◌, inl, inr, Bool-cases, Bool, true, false, List, [], ◌∷◌, ◌++◌, Option, none,
  some, All, if◌then◌else◌,
}
use actix_send.Error.{Result, ok}
use actix_send.Runtime.{spawn_blocking}
use actix_send.Macros.Syntax.{
  Item, Ident, tuple_struct, wild, arm, no_arms, user, expr_path, expr_macro,
}
use actix_send.Macros.Build.{path_from_ident_str}
use actix_send.Macros.Info.{
  ActorInfo, new_info, HandleMethodInfo, from_item, map_result_item, mapped_result,
}
use actix_send.Macros.HandlerTrait.{handler_item, started, answering}
use actix_send.Macros.Info.Generated.{name, IsNamed}
use actix_send.Macros.Meaning.{
  Host, Datum, value, outcome, tagged, Ran, yields, Env, then_run, blocking_answer, run_future,
  async_body, pooled, visible, eval, eval_path, bind_var,
}
use actix_send.Macros.Meaning.Items.{
  find_impl, is_from, is_handler, is_map_result, call_impl, send_message,
}
use actix_send.Macros.Meaning.Find.{as_impl, IsFirst, eval_arms-arms_of, take_arm, matched_self}
use actix_send.Macros.HandlerV2.{generate}
use actix_send.Macros.HandlerV2.Finds.{find-from, find-map, find-handler}
use actix_send.Macros.HandlerV2.Generate.{
  base, the_handler, generated, generated-items, generate_lem,
}

-- What a method itself does with the variables that it sees: an async method runs on the actor, any
-- other one on the blocking pool.
abbrev pub direct : (host : Host) → Bool → ℕ → (Ident → Option host.V) → host.Actor → Ran host
direct host true c seen a = let (r, a') = host.run c seen a in yields (outcome (ok r)) a'
direct host false c seen a =
    let r = host.compute c seen in
    blocking_answer host (spawn_blocking host.runtime (if host.joined c then some r else none) r) a

-- The one variable of a handle method.
abbrev pub only : {V : Type 0} → Ident → V → Ident → Option V
only var v i = if var == i then some v else none

module _ (host : Host) where
  open host use {V, Actor, run}

  -- What the arm's future yields.
  future : Bool → ℕ → (Ident → Option V) → Actor → Ran host
  future true c seen a = run_future host (async_body c seen) a
  future false c seen a = run_future host (pooled c seen) a

  answering-future :
      (b : Bool) (c : ℕ) (r i : Ident) (env : Env host) (a : Actor)
      → eval host (answering r i (started b (user c))) env a
        ≡ then_run host (future b c (visible host env) a) (λ d a'. yields (tagged r i d) a')
  unfolding eval future
  answering-future true c r i env a = refl
  answering-future false c r i env a = refl

  -- The mapping looks at its variable only.
  mapped_env :
      (b : Bool) (d : Datum host) (env other : Env host) (a : Actor)
      → eval_path host (mapped_result b) (bind_var host "result" d env) a
        ≡ eval_path host (mapped_result b) (bind_var host "result" d other) a
  mapped_env true d env other a = refl
  mapped_env false d env other a = refl

  -- The mapping of what the arm yields.
  blocking-mapping :
      (r i : Ident) (mapping : Datum host → Actor → Ran host)
      → ((d : Datum host) (a : Actor)
          → mapping (tagged r i d) a
            ≡ eval_path host (mapped_result false) (bind_var host "result" d (λ _. none)) a)
      → (o : Option (Result V)) (a : Actor)
      → then_run host
          (then_run host (blocking_answer host o a) (λ d a'. yields (tagged r i d) a'))
          mapping
        ≡ blocking_answer host o a
  blocking-mapping r i mapping maps_to none a = refl
  blocking-mapping r i mapping maps_to (some x) a = maps_to (outcome x) a

  future-mapping :
      (r i : Ident) (mapping : Datum host → Actor → Ran host) (b : Bool)
      → ((d : Datum host) (a : Actor)
          → mapping (tagged r i d) a
            ≡ eval_path host (mapped_result b) (bind_var host "result" d (λ _. none)) a)
      → (c : ℕ) (seen : Ident → Option V) (a : Actor)
      → then_run host (then_run host (future b c seen a) (λ d a'. yields (tagged r i d) a')) mapping
        ≡ direct host b c seen a
  unfolding future
  future-mapping r i mapping true maps_to c seen a =
      let x = run c seen a in maps_to (value (x.0)) x.1
  future-mapping r i mapping false maps_to c seen a = blocking-mapping r i mapping maps_to _ a

  module _ (actor : Ident) (no_send : Bool) (h : HandleMethodInfo) where
    message_enum : Ident
    message_enum = concat actor "Message"

    result_enum : Ident
    result_enum = concat actor "Result"

    call-from :
        (v : V) (a : Actor)
        → call_impl host (as_impl (from_item (base actor) h (name h))) (value v) a
          ≡ yields (tagged message_enum (name h) (value v)) a
    unfolding from_item base new_info eval message_enum
    call-from v a = refl

    call-map :
        (d : Datum host) (a : Actor)
        → call_impl host
            (as_impl (map_result_item (base actor) h (name h)))
            (tagged result_enum (name h) d)
            a
          ≡ eval_path host (mapped_result h.is_async) (bind_var host "result" d (λ _. none)) a
    unfolding map_result_item base new_info eval result_enum
    call-map d a =
        let from_msg : Env host = bind_var host "msg" (tagged result_enum (name h) d) (λ _. none) in
        take_arm host (tuple_struct (path_from_ident_str (result_enum ∷ name h ∷ [])) "result")
          (expr_path (mapped_result h.is_async))
          (arm wild (expr_macro (path_from_ident_str ("unreachable" ∷ []))) no_arms)
          (tagged result_enum (name h) d) from_msg (bind_var host "result" d from_msg) a
          (matched_self host result_enum (name h) "result" d from_msg)
        ∙ mapped_env h.is_async d from_msg (λ _. none) a

    call-handler :
        (before after : List HandleMethodInfo) (v : V) (a : Actor)
        → IsFirst before h
        → call_impl host
            (as_impl (the_handler actor no_send (before ++ h ∷ after)))
            (tagged message_enum (name h) (value v))
            a
          ≡ eval host
              (answering result_enum (name h) (started h.is_async h.method_block))
              (bind_var host h.message_var_ident
                (value v)
                (bind_var host "msg" (tagged message_enum (name h) (value v)) (λ _. none)))
              a
    unfolding the_handler handler_item eval message_enum result_enum
    call-handler before after v a first =
        eval_arms-arms_of host message_enum result_enum before h after (value v) _ a first

    -- The variables that the arm's body sees.
    seen_only :
        (v : V) (msg : Datum host)
        → (i : Ident)
        → visible host
            (bind_var host h.message_var_ident
              (value v)
              (bind_var host "msg" (tagged message_enum (name h) msg) (λ _. none)))
            i
          ≡ only h.message_var_ident v i
    seen_only v msg i = elim (Bool-cases (h.message_var_ident == i)) [
      | inl same ↦ rw same refl
      | inr other ↦ elim (Bool-cases ("msg" == i)) [
        | inl msg_ ↦ rw (other, msg_) refl
        | inr none_ ↦ rw (other, none_) refl
      ]
    ]

    -- From the message to the mapped answer.
    sent :
        (before after : List HandleMethodInfo) (c : ℕ) (v : V) (a : Actor)
        → IsFirst before h
        → h.method_block ≡ user c
        → then_run host
            (call_impl host
              (as_impl (the_handler actor no_send (before ++ h ∷ after)))
              (tagged message_enum (name h) (value v))
              a)
            (λ answer a2.
              call_impl host (as_impl (map_result_item (base actor) h (name h))) answer a2)
          ≡ direct host h.is_async c (only h.message_var_ident v) a
    sent before after c v a first body =
        let mapping : Datum host → Actor → Ran host = λ answer a2.
          call_impl host (as_impl (map_result_item (base actor) h (name h))) answer a2 in
        let env : Env host =
          bind_var host h.message_var_ident (value v)
            (bind_var host "msg" (tagged message_enum (name h) (value v)) (λ _. none)) in
        ap (λ r. then_run host r mapping)
          (call-handler before after v a first
            ∙ ap (λ b. eval host (answering result_enum (name h) (started h.is_async b)) env a) body
            ∙ answering-future h.is_async c result_enum (name h) env a)
        ∙ future-mapping result_enum (name h) mapping h.is_async call-map c (visible host env) a
        ∙ ap (λ seen. direct host h.is_async c seen a) (fun_ext (seen_only v (value v)))

-- Whatever the items are, if the three calls of a message find what was written for its method.
pub send_message-found :
    (host : Host) (actor : Ident) (no_send : Bool) (before : List HandleMethodInfo)
    (h : HandleMethodInfo) (after : List HandleMethodInfo) (c : ℕ) (v : host.V) (a : host.Actor)
    (items : List Item)
    → find_impl (is_from (name h)) items ≡ as_impl (from_item (base actor) h (name h))
    → find_impl is_handler items ≡ as_impl (the_handler actor no_send (before ++ h ∷ after))
    → find_impl (is_map_result (name h)) items ≡ as_impl (map_result_item (base actor) h (name h))
    → IsFirst before h
    → h.method_block ≡ user c
    → send_message host items (name h) v a ≡ direct host h.is_async c (only h.message_var_ident v) a
unfolding send_message
send_message-found host actor no_send before h after c v a items from handler map_result first
      body =
    rw (from, handler, map_result, call-from host actor no_send h v a)
      (sent host actor no_send h before after c v a first body)

-- A message that is sent to an actor whose handlers `handler_v2` generated, from method names, reaches
-- the first method for its type, and the sender gets what that method answers: an async method runs
-- on the actor and its answer is `Ok`, any other one runs on the blocking pool. No `unreachable!` is
-- reached.
pub send_message-generate :
    (host : Host) (actor : Ident) (no_send : Bool) (before : List HandleMethodInfo)
    (h : HandleMethodInfo) (after : List HandleMethodInfo) (c : ℕ) (v : host.V) (a : host.Actor)
    → All IsNamed (before ++ h ∷ after)
    → IsFirst before h
    → h.method_block ≡ user c
    → (info : ActorInfo) × (generate actor (before ++ h ∷ after) no_send ≡ some info)
      × (send_message host info.items (name h) v a
          ≡ direct host h.is_async c (only h.message_var_ident v) a)
send_message-generate host actor no_send before h after c v a named first body =
    let hs = before ++ h ∷ after in
    let at = generated-items actor no_send hs in
    (
      generated actor no_send hs,
      generate_lem actor no_send hs named,
      send_message-found host actor no_send before h after c v a _
          (ap (find_impl (is_from (name h))) at
            ∙ find-from actor no_send before h after named first)
          (ap (find_impl is_handler) at ∙ find-handler actor no_send hs)
          (ap (find_impl (is_map_result (name h))) at
            ∙ find-map actor no_send before h after named first)
          first body,
    )
