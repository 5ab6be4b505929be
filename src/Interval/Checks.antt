-- ===== src/Interval/Checks.antt =====
-- Instances of the theorems on src/interval.rs.
use actix_send.Prelude.{arith}
use actix_send.Interval.Keys.{IsValid}
use actix_send.Sample.{running}

running-IsValid : IsValid running
running-IsValid = record { given = (omega arith, tt); small = omega arith }
