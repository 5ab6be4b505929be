-- ===== src/Address/UnitTest.antt =====
-- The test `weak_addr` of tests/actor.rs, on the model of the addresses.
use actix_send.Prelude.{◌≡◌, refl}
use actix_send.Builder.{default}
use actix_send.Shared.{new}
use actix_send.Address.{gone, new_address, downgrade, drop, upgrade_weak}
use actix_send.Sample.{totals}

-- The only address is downgraded and dropped; the weak address cannot be upgraded.
weak_is_gone :
    let (g, a) = new_address {p = totals} default in
    (upgrade_weak (downgrade a) (drop a g)).1 ≡ gone
unfolding new_address downgrade drop upgrade_weak new default
weak_is_gone = refl
