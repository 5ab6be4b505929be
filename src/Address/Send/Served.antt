-- ===== src/Address/Send/Served.antt =====
-- Messages from the addresses of a set through one of its contexts, and the answers back.
use actix_send.Prelude.{
  ℕ, ◌≡◌, refl, ap, ◌∙◌, Bool, true, false, List, ◌∷◌, ◌++◌, Option, none, some, All, if◌then◌else◌,
  arith,
}
use actix_send.Error.{Result}
use actix_send.Message.{Program, ContextMessage}
use actix_send.Shared.{Shared, sent}
use actix_send.Runtime.{Timed, within, send_timeout}
use actix_send.Context.{ActorContext, receiving}
use actix_send.Context.Serving.{
  Sent, message_of, actor_after, reply_to, is_to, serve, serve_lem, reply_to_lem,
}
use actix_send.FutureHandle.{spawn}
use actix_send.Address.{Group, hold, release}
use actix_send.Address.Send.{send, do_send, deliver_task}

module _ {p : Program} {Output : Type 0} (answer : ℕ → ContextMessage p → Timed Bool) where
  open p use {Message, Reply, handle}

  send_answered :
      (tx : ℕ) (msg : Message) (rx : Option Reply) (r : Reply) (map_result : Reply → Result Output)
      → answer 0 (message_of p (some tx, msg)) ≡ within true
      → rx ≡ some r
      → send answer tx msg rx map_result ≡ map_result r
  unfolding send send_timeout
  send_answered tx msg rx r map_result took got = rw (took, got) refl

  -- A context that receives takes a message of `send` among any other messages with and without a
  -- caller. If the channel has taken the message, its caller still waits, and no later message of
  -- these answers through the same oneshot channel, then the actor ends as if it had handled the
  -- messages on its own, one after the other, and `send` answers what the message's conversion makes
  -- of the reply that the actor gave after the messages in front.
  pub send-serve :
      (rx_alive : ℕ → Bool) (tx : ℕ) (msg : Message) (before after : List (Sent p))
      (c : ActorContext p) (s : Shared p) (map_result : Reply → Result Output)
      → c.phase ≡ receiving
      → answer 0 (message_of p (some tx, msg)) ≡ within true
      → rx_alive tx ≡ true
      → All (λ m. is_to tx m.0 ≡ false) after
      → ((serve rx_alive (before ++ (some tx, msg) ∷ after) c s).0.actor
          ≡ actor_after p (before ++ (some tx, msg) ∷ after) c.actor)
        × (send answer tx msg
              (reply_to p tx (serve rx_alive (before ++ (some tx, msg) ∷ after) c s).1.log)
              map_result
            ≡ map_result (handle msg (actor_after p before c.actor)).0)
  send-serve rx_alive tx msg before after c s map_result serving took alive other =
      let served = serve_lem rx_alive (before ++ (some tx, msg) ∷ after) c s serving in
      (
        ap (λ cs. cs.0.actor) served,
        send_answered tx msg _ _ map_result took (
            ap (λ cs. reply_to p tx cs.1.log) served
            ∙ reply_to_lem rx_alive tx msg before after c.actor s.log alive other),
      )

-- `do_send` and its task send the message if the channel takes it, and leave every count as it was.
pub do_send-deliver_task :
    {p : Program} (took : Bool) (msg : p.Message) (g : Group p)
    → let after = deliver_task took (message_of p (none, msg)) (do_send msg g) in
      (after.shared.log
        ≡ (if took then sent (message_of p (none, msg)) ∷ g.shared.log else g.shared.log))
      × (after.shared.tx_strong ≡ g.shared.tx_strong)
      × (after.strong_count ≡ g.strong_count)
      × (after.subs_strong ≡ g.subs_strong)
unfolding do_send deliver_task hold release spawn
do_send-deliver_task true msg g = (refl, omega arith, refl, refl)
do_send-deliver_task false msg g = (refl, omega arith, refl, refl)
