-- ===== src/Waiting.antt =====
-- internal/connection/handler.go: a registered device between its registration and the end of its
-- handler: the goroutines deviceReader and deviceKeepalive and the wait of handleDevice, as a
-- machine whose events are what they do. Write deadlines are left out.
pub mod Watch
use proxy_rfc.Base.{
  ℕ, ◌+◌, Bool, true, false, not, ◌&&◌, ◌||◌, List, [], ◌∷◌, Bytes, is_positive, if◌then◌else◌,
}
use proxy_rfc.Bridge.{telnet_nop}
use proxy_rfc.Conn.{Conn, Written, write, close}

-- What a read of deviceReader returns: bytes, its deadline, or another error.
pub data Outcome : Type 0 where
  got : Bytes → Outcome
  timed_out failed : Outcome

-- deviceReader is at the top of its loop, in its read, or has returned.
pub data Reader : Type 0 where
  looking reading gone : Reader

pub record Waiting : Type 0 where
  pub conn : Conn
  -- The connection's read deadline, in nanoseconds; 0 is none.
  pub deadline : ℕ
  pub reader : Reader
  -- deviceKeepalive runs.
  pub keeper : Bool
  -- The channels `StopKeepalive`, `connClosed` and `readClosed` have been closed, and `ctx` is
  -- done.
  pub stopped : Bool
  pub conn_closed : Bool
  pub read_closed : Bool
  pub cancelled : Bool

-- handleDevice at its select, both goroutines started; with no idle timeout there is no keepalive.
unfoldable pub start : ℕ → Conn → Waiting
start idle_timeout conn = record {
  conn = conn;
  deadline = 0;
  reader = looking;
  keeper = is_positive idle_timeout;
  stopped = false;
  conn_closed = false;
  read_closed = false;
  cancelled = false;
}

pub data Event : Type 0 where
  reader_looks : ℕ → Event
  read_returns : Outcome → Event
  keeper_stops keeper_ticks : Event
  -- Another registration under the same identifier stops the goroutines and closes the connection.
  replaces : Event
  cancels : Event

-- The select of deviceReader; five seconds for the read.
abbrev look : ℕ → Waiting → Waiting
look now w =
    if w.stopped
    then record w { reader = gone }
    else record w { deadline = now + 5000000000; reader = reading }

-- Bytes are discarded.
abbrev returned : Outcome → Waiting → Waiting
returned (got bytes) w = record w { reader = looking }
returned timed_out w = record w { reader = looking }
returned failed w = record w { reader = gone; read_closed = true }

-- A closed connection reads no more.
abbrev read_of : Conn → Outcome → Outcome
read_of conn o = if conn.closed then failed else o

unfoldable pub device_reader_looks : ℕ → Waiting → Waiting
device_reader_looks now w = elim w.reader [ looking ↦ look now w | _ ↦ w ]

unfoldable pub device_reader_returns : Outcome → Waiting → Waiting
device_reader_returns o w = elim w.reader [ reading ↦ returned (read_of w.conn o) w | _ ↦ w ]

abbrev kept_alive : Waiting → Written → Waiting
kept_alive w r =
    if r.ok
    then record w { conn = r.conn }
    else record w { conn = close r.conn; keeper = false; conn_closed = true }

unfoldable pub device_keepalive : Waiting → Waiting
device_keepalive w = if w.keeper then kept_alive w (write w.conn telnet_nop) else w

unfoldable pub device_keepalive_stops : Waiting → Waiting
device_keepalive_stops w = if w.stopped then record w { keeper = false } else w

-- An event that cannot happen in a state leaves it.
unfoldable pub apply : Waiting → Event → Waiting
apply w (reader_looks now) = device_reader_looks now w
apply w (read_returns o) = device_reader_returns o w
apply w keeper_stops = device_keepalive_stops w
apply w keeper_ticks = device_keepalive w
apply w replaces = record w { stopped = true; conn = close w.conn }
apply w cancels = record w { cancelled = true }

unfoldable pub run : Waiting → List Event → Waiting
run w [] = w
run w (e ∷ es) = run (apply w e) es

-- The select of handleDevice goes on.
abbrev pub is_over : Waiting → Bool
is_over w = w.cancelled || w.conn_closed || w.read_closed
