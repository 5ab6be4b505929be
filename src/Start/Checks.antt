-- ===== src/Start/Checks.antt =====
-- Instances of the theorems on the starts of src/builder.rs.
use actix_send.Builder.{Config}
use actix_send.Sample.{restarting}

abbrev three : Config
three = record restarting { num = 3 }
