-- ===== src/Sample.antt =====
-- A concrete program and a concrete set of actors, for instances of the theorems: the actor is a
-- running total, a message adds to it and answers the total, a closure adds to it and counts its
-- calls.
use actix_send.Prelude.{ℕ, ◌+◌, true, false, [], ◌∷◌, none, some}
use actix_send.Builder.{Config}
use actix_send.Message.{Program, FutureObject}
use actix_send.Shared.{FutureHandler, Shared}

abbrev pub totals : Program
totals = record {
  Actor = ℕ;
  Message = ℕ;
  Reply = ℕ;
  Closure = ℕ;
  Value = ℕ;
  handle = λ m a. (a + m, a + m);
  on_start = λ a. a + 100;
  on_stop = λ a. a + 1_000;
  call = λ c a. (a, c + 1, a + c);
}

abbrev pub restarting : Config
restarting = record {
  num = 2;
  restart_on_err = true;
  handle_delayed_on_shutdown = false;
  allow_broadcast = true;
  allow_subscribe = true;
  timeout = 5;
}

abbrev pub counter : ℕ → FutureObject totals
counter n = record { func = n; output = 7 }

-- Two actors run; cell 0 belongs to interval future 0, whose task has polled with waker 9.
abbrev pub running : Shared totals
running = record {
  config = restarting;
  active = 4;
  handlers = record { cell = 0; tx = some 0 } ∷ [];
  next_key = 1;
  futures = (0, counter 5) ∷ [];
  cells = λ _. record { cancelled = false; waker = none };
  next_cell = 1;
  tx_strong = 2;
  tasks = [];
  log = [];
}

abbrev pub interval_handler : FutureHandler
interval_handler = record { cell = 0; tx = some 0 }
