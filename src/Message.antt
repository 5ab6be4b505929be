-- ===== src/Message.antt =====
-- src/object.rs and the message types of src/context.rs: what travels to an actor, and what the
-- actor's own code supplies.
use actix_send.Prelude.{ℕ, Option, none, some, ◌==◌, if◌then◌else◌}
use actix_send.Builder.{Duration}

-- What the user of the library writes: the actor, its messages, its hooks and its closures. A
-- closure is `FnMut`, so a call returns the closure as it is afterwards. `Value` holds the data of
-- every type that is sent as `dyn Any`.
pub record Program : Type 1 where
  pub Actor : Type 0
  pub Message : Type 0
  pub Reply : Type 0
  pub Closure : Type 0
  pub Value : Type 0
  pub handle : Message → Actor → Reply × Actor
  pub on_start : Actor → Actor
  pub on_stop : Actor → Actor
  pub call : Closure → Actor → Value × Closure × Actor

-- `Box<dyn Any>` around an `Option<R>`: `type_id` is the `TypeId` of `R`.
pub record AnyObjectContainer (V : Type 0) : Type 0 where
  pub type_id : ℕ
  pub held : Option V

unfoldable pub pack : {V : Type 0} → ℕ → V → AnyObjectContainer V
pack r v = record { type_id = r; held = some v }

-- `downcast_mut` to `Option<R>`, then `take`.
unfoldable pub unpack : {V : Type 0} → ℕ → AnyObjectContainer V → Option V × AnyObjectContainer V
unpack r any = if any.type_id == r then (any.held, record any { held = none }) else (none, any)

module _ (p : Program) where
  open p use {Actor, Message, Reply, Closure, Value, call}

  -- `FutureObject`: the closure with the type of its output.
  pub record FutureObject : Type 0 where
    pub func : Closure
    pub output : ℕ

  -- `FutureTrait::handle`, awaited: runs the closure on the actor and packs what it returns.
  unfoldable pub handle_future :
      FutureObject → Actor → AnyObjectContainer Value × FutureObject × Actor
  unfolding pack
  handle_future f a =
      let (v, func, a') = call f.func a in (pack f.output v, record f { func = func }, a')

  -- A oneshot sender is the number of its channel.
  pub data InstantMessage : Type 0 where
    static : Option ℕ → Message → InstantMessage
    dynamic : Option ℕ → FutureObject → InstantMessage

  pub data DelayedMessage : Type 0 where
    static : Message → Duration → DelayedMessage
    dynamic : FutureObject → Duration → DelayedMessage

  pub data IntervalMessage : Type 0 where
    register : ℕ → FutureObject → Duration → IntervalMessage
    run : ℕ → IntervalMessage
    remove : ℕ → IntervalMessage

  pub data ContextMessage : Type 0 where
    manual_shut_down : ℕ → ContextMessage
    instant : InstantMessage → ContextMessage
    delayed : DelayedMessage → ContextMessage
    interval : IntervalMessage → ContextMessage

-- What a context tells the caller of `close_one` about itself.
pub record ActorContextState : Type 0 where
  pub id : ℕ
  pub generation : ℕ
