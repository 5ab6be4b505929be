-- ===== src/Macros/Meaning.antt =====
-- What the items that the macros generate do when they run: the meaning of the Rust code in them.
pub mod Items
pub mod Find
pub mod Pairs
use text.Mathlib.Text.{◌==◌}
use actix_send.Prelude.{
  ℕ, Bool, true, false, ◌&&◌, List, [], ◌∷◌, Option, none, some, if◌then◌else◌,
}
use actix_send.Error.{Result, ok}
use actix_send.Runtime.{Runtime, spawn_blocking}
use actix_send.Macros.Syntax.{
  Ident, type_path, Segments, end, segment, plain, parenthesized, no_types, type_and, Pat,
  pat_ident, tuple_struct, wild, other_pat, Expr, expr_path, call, await, async_move, move_closure,
  expr_match, expr_block, expr_macro, self_method, Block, user, stmts, Stmts, no_stmts, stmt_expr,
  stmt_local, Arms, no_arms, arm,
}

-- The user's code: what a body computes from the variables that it sees, on the actor or on the
-- blocking pool of the runtime, where `joined` says whether its task can be joined.
pub record Host : Type 1 where
  pub V : Type 0
  pub Actor : Type 0
  pub run : ℕ → (Ident → Option V) → Actor → V × Actor
  pub compute : ℕ → (Ident → Option V) → V
  pub runtime : Runtime
  pub joined : ℕ → Bool

module _ (host : Host) where
  open host use {V, Actor, run, compute, runtime, joined}

  -- A value, a result, a variant of an enum with its field, a future of the actor, a closure, and a
  -- future of the blocking pool.
  pub data Datum : Type 0 where
    value : V → Datum
    outcome : Result V → Datum
    tagged : Ident → Ident → Datum → Datum
    async_body closure pooled : ℕ → (Ident → Option V) → Datum

  abbrev pub Env : Type 0
  Env = Ident → Option Datum

  -- `stuck` is code that `rustc` refuses, or that is not modelled.
  pub data Ran : Type 0 where
    yields : Datum → Actor → Ran
    panics stuck : Ran

  abbrev pub then_run : Ran → (Datum → Actor → Ran) → Ran
  then_run (yields d a) f = f d a
  then_run panics f = panics
  then_run stuck f = stuck

  abbrev pub bind_var : Ident → Datum → Env → Env
  bind_var i d env j = if i == j then some d else env j

  abbrev pub as_value : Option Datum → Option V
  as_value (some (value v)) = some v
  as_value _ = none

  -- The values that a body captures.
  abbrev pub visible : Env → Ident → Option V
  visible env i = as_value (env i)

  abbrev pub found : Option Datum → Actor → Ran
  found none a = stuck
  found (some d) a = yields d a

  abbrev pub wrapped_ok : Option Datum → Actor → Ran
  wrapped_ok (some (value v)) a = yields (outcome (ok v)) a
  wrapped_ok _ a = stuck

  -- A variable, or `Ok` of one.
  abbrev pub eval_path : Segments → Env → Actor → Ran
  eval_path (segment i plain end) env a = found (env i) a
  eval_path (segment i (parenthesized (type_and (type_path (segment x plain end)) no_types)) end)
        env a =
      if i == "Ok" then wrapped_ok (env x) a else stuck
  eval_path _ env a = stuck

  -- A start on the blocking pool, or a constructor of an enum.
  abbrev pub apply : Segments → Datum → Actor → Ran
  apply (segment f plain end) (closure c seen) a =
      if f == "actix_send_blocking" then yields (pooled c seen) a else stuck
  apply (segment e plain (segment v plain end)) d a = yields (tagged e v d) a
  apply _ d a = stuck

  abbrev pub blocking_answer : Option (Result V) → Actor → Ran
  blocking_answer none a = panics
  blocking_answer (some r) a = yields (outcome r) a

  -- `.await`
  abbrev pub run_future : Datum → Actor → Ran
  run_future (async_body c seen) a = let (v, a') = run c seen a in yields (value v) a'
  run_future (pooled c seen) a =
      let v = compute c seen in
      blocking_answer (spawn_blocking runtime (if joined c then some v else none) v) a
  run_future _ a = stuck

  abbrev pub capture_async : Block → Env → Actor → Ran
  capture_async (user c) env a = yields (async_body c (visible env)) a
  capture_async (stmts s) env a = stuck

  abbrev pub capture_closure : Block → Env → Actor → Ran
  capture_closure (user c) env a = yields (closure c (visible env)) a
  capture_closure (stmts s) env a = stuck

  abbrev pub field_of : Segments → Datum → Option Datum
  field_of (segment e plain (segment v plain end)) (tagged e' v' d) =
      if (e == e') && (v == v') then some d else none
  field_of _ d = none

  -- The variables behind a pattern that matches.
  abbrev pub matched : Pat → Datum → Env → Option Env
  matched (pat_ident i) d env = some (bind_var i d env)
  matched (tuple_struct p i) d env = elim (field_of p d) [
    | none ↦ none
    | some d' ↦ some (bind_var i d' env)
  ]
  matched wild d env = some env
  matched (other_pat n) d env = none

  abbrev pub eval_macro : Segments → Ran
  eval_macro (segment i plain end) = if i == "unreachable" then panics else stuck
  eval_macro _ = stuck

  abbrev pub scrutinee : Segments → Env → Option Datum
  scrutinee (segment i plain end) env = env i
  scrutinee _ env = none

  unfoldable mutual
    pub eval : Expr → Env → Actor → Ran
    eval (expr_path p) env a = eval_path p env a
    eval (call p e) env a = then_run (eval e env a) (apply p)
    eval (await e) env a = then_run (eval e env a) run_future
    eval (async_move block) env a = capture_async block env a
    eval (move_closure block) env a = capture_closure block env a
    eval (expr_match p arms) env a = elim (scrutinee p env) [
      | none ↦ stuck
      | some d ↦ eval_arms arms d env a
    ]
    eval (expr_block block) env a = eval_block block env a
    eval (expr_macro p) env a = eval_macro p
    eval (self_method i) env a = stuck

    pub eval_block : Block → Env → Actor → Ran
    eval_block (user c) env a = stuck
    eval_block (stmts s) env a = eval_stmts s env a

    pub eval_stmts : Stmts → Env → Actor → Ran
    eval_stmts no_stmts env a = stuck
    eval_stmts (stmt_expr e) env a = eval e env a
    eval_stmts (stmt_local i e rest) env a =
        then_run (eval e env a) (λ d a'. eval_stmts rest (bind_var i d env) a')

    pub eval_arms : Arms → Datum → Env → Actor → Ran
    eval_arms no_arms d env a = stuck
    eval_arms (arm pat body rest) d env a = elim (matched pat d env) [
      | none ↦ eval_arms rest d env a
      | some env' ↦ eval body env' a
    ]
