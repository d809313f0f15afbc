-- ===== src/Rest/Server.antt =====
-- rest/server.go: the servers by name, and `Listen` as a step relation of its two goroutines, the caller
-- that reads the channel of errors, and the context. A failure is an error of the kind SystemError that
-- wraps the one of net/http; here it is that one. The router and the logger are left out.
pub mod Laws
mod Tests
use garlic.Common.{
  ℕ, ◌*◌, ◌≡◌, String, Bool, true, false, Option, none, some, List, [], ◌∷◌, ◌++◌, lookup, insert,
  ◌≢◌,
}
use garlic.Errors.ErrorT.{Err}

-- `on_shutdown` says which hook there is.
pub record Server : Type 0 where
  pub name : String
  pub shutdown_timeout : ℕ
  pub on_shutdown : Option ℕ

abbrev pub ServerOption : Type 0
ServerOption = Server → Server

unfoldable pub with_shutdown_timeout : ℕ → ServerOption
with_shutdown_timeout d s = record s { shutdown_timeout = d }

unfoldable pub with_on_shutdown : ℕ → ServerOption
with_on_shutdown hook s = record s { on_shutdown = some hook }

abbrev pub default_shutdown_timeout : ℕ
default_shutdown_timeout = 30 * 1000000000

unfoldable pub apply_options : List ServerOption → ServerOption
apply_options [] s = s
apply_options (opt ∷ opts) s = apply_options opts (opt s)

unfoldable pub new_server : String → List ServerOption → Server
unfolding apply_options
new_server name opts =
    apply_options opts
      (record { name = name; shutdown_timeout = default_shutdown_timeout; on_shutdown = none })

-- The table of servers; a nil map has none.
abbrev pub Servers : Type 0
Servers = List (String × Server)

abbrev pub found_or_new : String → List ServerOption → Servers → Option Server → Server × Servers
found_or_new name opts servers (some s) = (s, servers)
found_or_new name opts servers none =
    (new_server name opts, insert name (new_server name opts) servers)

unfoldable pub get_server : String → List ServerOption → Servers → Server × Servers
get_server name opts servers = found_or_new name opts servers (lookup name servers)

-- The goroutine that serves: in `ListenAndServe`, with an error that it has still to send, or ended.
pub data Listener : Type 0 where
  serving : Listener
  sending : Err → Listener
  ended : Listener

-- The goroutine that waits for the context: before that, in the hook and `Shutdown`, with an error that
-- it has still to send, before its deferred `close`, or at its end.
pub data Keeper : Type 0 where
  waiting : Keeper
  stopping : Keeper
  reporting : Err → Keeper
  closing : Keeper
  gone : Keeper

-- The channel has room for one error. `raised` records the failures of net/http, `received` what the
-- caller has read.
pub record Listening : Type 0 where
  pub listener : Listener
  pub keeper : Keeper
  pub done : Bool
  pub buffer : Option Err
  pub closed : Bool
  pub panicked : Bool
  pub raised : List Err
  pub received : List Err

unfoldable pub listen : Listening
listen = record {
  listener = serving;
  keeper = waiting;
  done = false;
  buffer = none;
  closed = false;
  panicked = false;
  raised = [];
  received = [];
}

pub data Step (s : Listening) (t : Listening) : Type 0 where
  cancels : t ≡ record s { done = true } → Step s t
  -- `ListenAndServe` returns `ErrServerClosed`, once `Shutdown` was called.
  stops : s.listener ≡ serving → s.keeper ≢ waiting → t ≡ record s { listener = ended } → Step s t
  fails :
      (err : Err)
      → s.listener ≡ serving
      → t ≡ record s { listener = sending err; raised = err ∷ s.raised }
      → Step s t
  sends :
      (err : Err)
      → s.listener ≡ sending err
      → s.closed ≡ false
      → s.buffer ≡ none
      → t ≡ record s { listener = ended; buffer = some err }
      → Step s t
  -- A send on a closed channel panics.
  panics :
      (err : Err)
      → s.listener ≡ sending err
      → s.closed ≡ true
      → t ≡ record s { panicked = true }
      → Step s t
  wakes : s.keeper ≡ waiting → s.done ≡ true → t ≡ record s { keeper = stopping } → Step s t
  shuts_down : s.keeper ≡ stopping → t ≡ record s { keeper = closing } → Step s t
  shutdown_fails :
      (err : Err)
      → s.keeper ≡ stopping
      → t ≡ record s { keeper = reporting err; raised = err ∷ s.raised }
      → Step s t
  reports :
      (err : Err)
      → s.keeper ≡ reporting err
      → s.buffer ≡ none
      → t ≡ record s { keeper = closing; buffer = some err }
      → Step s t
  closes : s.keeper ≡ closing → t ≡ record s { keeper = gone; closed = true } → Step s t
  receives :
      (err : Err)
      → s.buffer ≡ some err
      → t ≡ record s { buffer = none; received = err ∷ s.received }
      → Step s t

-- A panic ends the program.
pub data Reach : Listening → Type 0 where
  start : Reach listen
  later : {s t : Listening} → Reach s → s.panicked ≡ false → Step s t → Reach t
