-- ===== src/Program.antt =====
-- cmd/proxy/main.go with the Start of internal/connection/server.go and of internal/api/server.go:
-- the accept loop, the end of the two servers and the wait of main, as a machine whose events are
-- what the goroutines do.
pub mod Running
use proxy_rfc.Base.{
  ℕ, Bool, true, false, not, ◌&&◌, ◌||◌, Option, none, some, List, [], ◌∷◌, ◌++◌, if◌then◌else◌,
}

-- What a Start returns: nil, or an error.
pub data Result : Type 0 where
  clean broken : Result

-- The connection server: whether its listener is open, the connections that it has started handlers
-- for, and what Start has returned.
pub record Acceptor : Type 0 where
  pub listening : Bool
  pub handled : List ℕ
  pub result : Option Result

-- Start up to its loop; the flag is whether Listen succeeds.
unfoldable pub start_server : Bool → Acceptor
start_server true = record { listening = true; handled = []; result = none }
start_server false = record { listening = false; handled = []; result = some broken }

-- What a call of Accept returns.
pub data Accepting : Type 0 where
  accepts : ℕ → Accepting
  fails : Accepting

-- A closed listener accepts no more.
abbrev accepting_of : Bool → Accepting → Accepting
accepting_of listening a = if listening then a else fails

abbrev accepted : Bool → Accepting → Acceptor → Acceptor
accepted cancelled (accepts conn) s = record s { handled = s.handled ++ (conn ∷ []) }
accepted cancelled fails s = if cancelled then record s { result = some clean } else s

-- One round of the accept loop, where Start has not returned.
unfoldable pub accept_round : Bool → Accepting → Acceptor → Acceptor
accept_round cancelled a s = elim s.result [
  | none ↦ accepted cancelled (accepting_of s.listening a) s
  | some r ↦ s
]

pub record Program : Type 0 where
  pub cancelled : Bool
  pub connections : Acceptor
  pub api : Option Result
  -- main has returned.
  pub over : Bool

unfoldable pub start_program : Bool → Program
unfolding start_server
start_program listens = record {
  cancelled = false;
  connections = start_server listens;
  api = none;
  over = false;
}

-- `ListenAndServe` returns `ErrServerClosed`, which is no error of Start, or another error.
pub data Event : Type 0 where
  signalled : Event
  accept_returns : Accepting → Event
  listener_closes : Event
  serving_closed serving_failed : Event
  main_wakes : Event

abbrev has_returned : Option Result → Bool
has_returned none = false
has_returned (some r) = true

-- An event that cannot happen in a state leaves it: the listener is closed and the HTTP server is
-- shut down once the context is done.
unfoldable pub apply : Program → Event → Program
unfolding accept_round
apply p signalled = record p { cancelled = true }
apply p (accept_returns a) = record p { connections = accept_round p.cancelled a p.connections }
apply p listener_closes =
    if p.cancelled then record p { connections = record p.connections { listening = false } } else p
apply p serving_closed = if p.cancelled then record p { api = some clean } else p
apply p serving_failed = record p { api = some broken }
apply p main_wakes =
    if has_returned p.connections.result || has_returned p.api || p.cancelled
    then record p { over = true }
    else p

unfoldable pub run : Program → List Event → Program
run p [] = p
run p (e ∷ es) = run (apply p e) es
