-- ===== src/Bridge.antt =====
-- internal/session/bridge.go: the two copy loops of a session, its keepalive, and `Run`, as a
-- machine whose events are what the goroutines do: a read that returns, a tick, `Run` that goes
-- on. A read of up to 4096 bytes and its write make one event; write deadlines are left out.
pub mod Delivery
pub mod Done
pub mod HalfClosed
pub mod Keepalive
pub mod Mirror
pub mod Opened
pub mod Outward
pub mod Padding
pub mod Passing
pub mod Silenced
use proxy_rfc.Base.{
  ℕ, ◌+◌, ◌/◌, ◌%◌, ◌^◌, Bool, true, false, not, ◌&&◌, ◌||◌, List, [], ◌∷◌, Bytes, is_empty,
  is_positive, leb, if◌then◌else◌,
}
use proxy_rfc.Conn.{Conn, Written, write, close}

-- `telnetNOP`.
abbrev pub telnet_nop : Bytes
telnet_nop = 0xff ∷ 0xf1 ∷ []

-- What one call of Read returns: bytes, and whether an error came with them.
pub record Reading : Type 0 where
  pub payload : Bytes
  pub fails : Bool

-- One direction: the time of its last activity, the session's counter of its bytes, its own total,
-- and whether its loop still runs. The counters have 64 bits.
pub record Flow : Type 0 where
  pub last_active : ℕ
  pub counter : ℕ
  pub total : ℕ
  pub running : Bool

pub record Bridge : Type 0 where
  pub client : Conn
  pub device : Conn
  pub inward : Flow
  pub outward : Flow
  -- In nanoseconds.
  pub idle_timeout : ℕ
  -- The keepalive goroutine runs.
  pub keepalive : Bool
  -- The session's channel `done` has been closed.
  pub ended : Bool
  -- `Run` has closed the connections, and has returned.
  pub closing : Bool
  pub returned : Bool

abbrev pub new_flow : ℕ → Flow
new_flow now = record { last_active = now; counter = 0; total = 0; running = true }

-- `NewBridge` and the start of `Run`.
unfoldable pub new_bridge : ℕ → ℕ → Conn → Conn → Bridge
new_bridge now idle_timeout client device = record {
  client = client;
  device = device;
  inward = new_flow now;
  outward = new_flow now;
  idle_timeout = idle_timeout;
  keepalive = is_positive idle_timeout;
  ended = false;
  closing = false;
  returned = false;
}

pub record Copied : Type 0 where
  pub conn : Conn
  pub flow : Flow

abbrev pub copied : ℕ → Flow → Bool → Written → Copied
copied now f fails w = record {
  conn = w.conn;
  flow = record {
    last_active = now;
    counter = (f.counter + w.count) % 2 ^ 64;
    total = (f.total + w.count) % 2 ^ 64;
    running = w.ok && not fails;
  };
}

-- The body of the loop of `copyWithActivity`, with the connection that is written to.
unfoldable pub copy_reading : ℕ → Conn → Flow → Reading → Copied
copy_reading now conn f r =
    if is_empty r.payload
    then record { conn = conn; flow = record f { running = not r.fails } }
    else copied now f r.fails (write conn r.payload)

-- A connection that has been closed reads no more.
abbrev pub reading_of : Conn → Reading → Reading
reading_of conn r = if conn.closed then record { payload = []; fails = true } else r

-- One side of a tick: the connection, and whether the keepalive goes on.
pub record Kept : Type 0 where
  pub conn : Conn
  pub alive : Bool

abbrev pub nop_written : Written → Kept
nop_written w =
    if w.ok
    then record { conn = w.conn; alive = true }
    else record { conn = close w.conn; alive = false }

unfoldable pub keep_side : ℕ → ℕ → Flow → Conn → Kept
keep_side idle_timeout now f conn =
    if leb (f.last_active + idle_timeout / 1000000000) now
    then nop_written (write conn telnet_nop)
    else record { conn = conn; alive = true }

unfoldable pub keep_device : ℕ → Bridge → Bridge
keep_device now b =
    let k = keep_side b.idle_timeout now b.outward b.device in
    record b { device = k.conn; keepalive = k.alive }

-- A tick of the keepalive. The client comes first; if its NOP fails the device gets none.
unfoldable pub keep_both : ℕ → Bridge → Bridge
keep_both now b =
    let k = keep_side b.idle_timeout now b.inward b.client in
    if k.alive
    then keep_device now (record b { client = k.conn })
    else record b { client = k.conn; keepalive = false }

pub data Event : Type 0 where
  client_reads : ℕ → Reading → Event
  device_reads : ℕ → Reading → Event
  ticks : ℕ → Event
  -- The select of `Run` goes on, and `Run` returns.
  wakes returns : Event

abbrev pub both_done : Bridge → Bool
both_done b = not b.inward.running && not b.outward.running

unfoldable pub client_read : ℕ → Reading → Bridge → Bridge
client_read now r b =
    let k = copy_reading now b.device b.inward (reading_of b.client r) in
    if b.inward.running then record b { device = k.conn; inward = k.flow } else b

unfoldable pub device_read : ℕ → Reading → Bridge → Bridge
device_read now r b =
    let k = copy_reading now b.client b.outward (reading_of b.device r) in
    if b.outward.running then record b { client = k.conn; outward = k.flow } else b

unfoldable pub wake : Bridge → Bridge
wake b =
    if both_done b || b.ended
    then record b {
      client = close b.client;
      device = close b.device;
      keepalive = false;
      closing = true;
    }
    else b

-- An event that cannot happen in a state leaves it.
unfoldable pub apply : Bridge → Event → Bridge
apply b (client_reads now r) = client_read now r b
apply b (device_reads now r) = device_read now r b
apply b (ticks now) = if b.keepalive then keep_both now b else b
apply b wakes = wake b
apply b returns = if b.closing && both_done b then record b { returned = true } else b

unfoldable pub run : Bridge → List Event → Bridge
run b [] = b
run b (e ∷ es) = run (apply b e) es
