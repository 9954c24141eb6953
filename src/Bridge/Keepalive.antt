-- ===== src/Bridge/Keepalive.antt =====
-- The ticks of the keepalive of bridge.go.
use mathlib.Core.List.{append-nil}
use proxy_rfc.Base.{
  ℕ, ◌+◌, ◌/◌, ◌≡◌, refl, true, false, [], ◌++◌, Bytes, leb, if◌then◌else◌, Bool-cases, inl, inr,
  arith,
}
use proxy_rfc.Conn.{Conn, write, close}
use proxy_rfc.Conn.Open.{IsOpen, write_open_lem}
use proxy_rfc.Bridge.{telnet_nop, Flow, Bridge, keep_side, keep_device, keep_both, ticks, apply}

-- The NOP that a side is due: one if nothing came from it for the idle time, in whole seconds.
abbrev pub nop_due : ℕ → ℕ → Flow → Bytes
nop_due idle_timeout now f =
    if leb (f.last_active + idle_timeout / 1000000000) now then telnet_nop else []

keep_side-open :
    (idle_timeout now : ℕ) (f : Flow) (conn : Conn)
    → IsOpen conn
    → keep_side idle_timeout now f conn ≡ record {
      conn = record conn { sent = conn.sent ++ nop_due idle_timeout now f };
      alive = true;
    }
unfolding keep_side
keep_side-open idle_timeout now f conn h =
    elim (Bool-cases (leb (f.last_active + idle_timeout / 1000000000) now)) [
      | inl due ↦ rw due (rw (write_open_lem conn telnet_nop h) refl)
      | inr rested ↦ rw rested (rw (append-nil conn.sent) refl)
    ]

-- A tick sends each side that has been idle for the idle time a NOP, and nothing to the other; with
-- two connections whose writes succeed it changes nothing else.
pub ticks-open :
    (b : Bridge) (now : ℕ)
    → b.keepalive ≡ true
    → IsOpen b.client
    → IsOpen b.device
    → apply b (ticks now) ≡ record b {
      client = record b.client { sent = b.client.sent ++ nop_due b.idle_timeout now b.inward };
      device = record b.device { sent = b.device.sent ++ nop_due b.idle_timeout now b.outward };
      keepalive = true;
    }
unfolding apply keep_both keep_device
ticks-open b now on hc hd = simp (
  on,
  keep_side-open b.idle_timeout now b.inward b.client hc,
  keep_side-open b.idle_timeout now b.outward b.device hd,
)

-- A client that is due a NOP and whose write of it fails is closed; the keepalive has ended, so
-- that the device gets no NOP at this tick.
pub ticks_failed :
    (b : Bridge) (now : ℕ)
    → b.keepalive ≡ true
    → nop_due b.idle_timeout now b.inward ≡ telnet_nop
    → (write b.client telnet_nop).ok ≡ false
    → apply b (ticks now)
      ≡ record b { client = close (write b.client telnet_nop).conn; keepalive = false }
unfolding apply keep_both keep_side
ticks_failed b now on due bad =
    let late : leb (b.inward.last_active + b.idle_timeout / 1000000000) now ≡ true = ground arith in
    simp (on, late, bad)
