-- ===== src/Builder.antt =====
-- src/builder.rs: the configuration of a set of actors and the setters that change it.
use actix_send.Prelude.{ℕ, ◌*◌, Bool, true, false, Option, none, some, ltb, if◌then◌else◌}

-- `Duration`, in nanoseconds.
abbrev pub Duration : Type 0
Duration = ℕ

abbrev pub from_secs : ℕ → Duration
from_secs n = n * 1_000_000_000

pub record Config : Type 0 where
  pub num : ℕ
  pub restart_on_err : Bool
  pub handle_delayed_on_shutdown : Bool
  pub allow_broadcast : Bool
  pub allow_subscribe : Bool
  pub timeout : Duration

-- `Config::default`
unfoldable pub default : Config
default = record {
  num = 1;
  restart_on_err = false;
  handle_delayed_on_shutdown = false;
  allow_broadcast = false;
  allow_subscribe = false;
  timeout = from_secs 10;
}

-- `check_num`: the assertion that `num > target`; `none` is its panic.
check_num : ℕ → ℕ → Option (Unit {0})
check_num num target = if ltb target num then some tt else none

unfoldable pub set_num : ℕ → Config → Option Config
unfolding check_num
set_num num c = elim (check_num num 0) [ none ↦ none | some _ ↦ some (record c { num = num }) ]

pub set_handle_delayed_on_shutdown : Config → Config
set_handle_delayed_on_shutdown c = record c { handle_delayed_on_shutdown = true }

pub set_restart_on_err : Config → Config
set_restart_on_err c = record c { restart_on_err = true }

pub set_timeout : Duration → Config → Config
set_timeout duration c = record c { timeout = duration }

pub set_allow_broadcast : Config → Config
set_allow_broadcast c = record c { allow_broadcast = true }

pub set_allow_subscribe : Config → Config
set_allow_subscribe c = record c { allow_subscribe = true }
