-- ===== src/Address.antt =====
-- src/address.rs, with the senders of src/sender.rs that it counts: how addresses and weak addresses
-- of one set of actors are made, cloned and dropped.
pub mod Life
pub mod Send
mod Checks
mod UnitTest
use actix_send.Prelude.{
  ℕ, zero, suc, ◌+◌, ◌-◌, Bool, true, false, List, [], ◌∷◌, ◌++◌, Option, none, some, ltb, ◌==◌,
  if◌then◌else◌,
}
use actix_send.Builder.{Config}
use actix_send.Message.{Program}
use actix_send.Shared.{Shared, new, wrapping_add, wrapping_sub}
use actix_send.Actor.{shutdown}

-- The fields in which two addresses of one set can differ: whether `tx_subs` and `subs` are there.
pub record Address : Type 0 where
  pub tx_subs : Bool
  pub subs : Bool

pub record WeakAddress : Type 0 where
  pub tx_subs : Bool

-- The objects behind the addresses: the shared state with the channel's sender, the counter
-- `strong_count`, and the strong count of the `Arc` around the broadcast senders.
pub record Group (p : Program) : Type 0 where
  pub shared : Shared p
  pub strong_count : ℕ
  pub subs_strong : ℕ

-- The answers of `WeakAddress::upgrade`; `panics` is its `expect`.
pub data Upgraded : Type 0 where
  gone : Upgraded
  panics : Upgraded
  upgraded : Address → Upgraded

one_if : Bool → ℕ
one_if b = if b then 1 else 0

-- `Address::downgrade`
pub downgrade : Address → WeakAddress
downgrade a = record { tx_subs = a.tx_subs }

module _ {p : Program} where
  -- `Address::new`. Without `allow_broadcast` the group of broadcast senders is dropped here.
  pub new_address : Config → Group p × Address
  unfolding one_if
  new_address config = (
    record { shared = new p config; strong_count = 1; subs_strong = one_if config.allow_broadcast },
    record { tx_subs = config.allow_broadcast; subs = config.allow_subscribe },
  )

  -- `impl Clone`
  pub clone : Address → Group p → Group p × Address
  unfolding one_if
  clone a g = (
    record g {
      strong_count = wrapping_add g.strong_count 1;
      shared = record (g.shared) { tx_strong = g.shared.tx_strong + 1 };
      subs_strong = g.subs_strong + one_if a.tx_subs;
    },
    a,
  )

  -- The fields of an address go after its `drop` has run.
  drop_fields : Address → Group p → Group p
  unfolding one_if
  drop_fields a g = record g {
    shared = record (g.shared) { tx_strong = g.shared.tx_strong - 1 };
    subs_strong = g.subs_strong - one_if a.tx_subs;
  }

  -- `impl Drop`: `fetch_sub` answers the count from before the subtraction.
  pub drop : Address → Group p → Group p
  unfolding drop_fields
  drop a g =
      let before = g.strong_count in
      let counted = record g { strong_count = wrapping_sub before 1 } in
      drop_fields a
        (if before == 0 then record counted { shared = shutdown counted.shared } else counted)

  -- `WeakAddress::upgrade`. By the panic the new sender is dropped again, and the count stays.
  pub upgrade_weak : WeakAddress → Group p → Group p × Upgraded
  unfolding one_if
  upgrade_weak w g =
      let counted = record g { strong_count = wrapping_add g.strong_count 1 } in
      let held = record counted {
        shared = record (g.shared) { tx_strong = g.shared.tx_strong + 1 };
      } in
      let grouped = record held { subs_strong = g.subs_strong + one_if w.tx_subs } in
      let address : Address = record { tx_subs = w.tx_subs; subs = false } in
      if ltb 0 g.shared.tx_strong
      then if w.tx_subs
        then if ltb 0 g.subs_strong then (grouped, upgraded address) else (counted, panics)
        else (grouped, upgraded address)
      else (g, gone)

  -- `self.tx.clone()` in `do_send`, `do_run`, `send_stream` and `send_skip_stream`: a task or a
  -- stream that owns a sender and no address.
  pub hold : Group p → Group p
  hold g = record g { shared = record (g.shared) { tx_strong = g.shared.tx_strong + 1 } }

  pub release : Group p → Group p
  release g = record g { shared = record (g.shared) { tx_strong = g.shared.tx_strong - 1 } }
