-- ===== src/Tests/Bridges.antt =====
-- Sessions that run, event by event.
use proxy_rfc.Base.{ℕ, ◌+◌, ◌%◌, ◌^◌, ◌≡◌, refl, true, false, List, [], ◌∷◌, ◌++◌, Bytes, codes}
use proxy_rfc.Conn.{Conn, write, close, breaks}
use proxy_rfc.Bridge.{
  Reading, Bridge, telnet_nop, new_bridge, new_flow, Event, client_reads, device_reads, ticks,
  wakes, returns, apply, run,
}
use proxy_rfc.Bridge.Delivery.{run-Delivers}
use proxy_rfc.Bridge.Mirror.{run_outward}
use proxy_rfc.Bridge.HalfClosed.{IsWaiting, run-IsWaiting, run_returns}
use proxy_rfc.Bridge.Keepalive.{ticks-open, ticks_failed}

abbrev open_conn : Conn
open_conn = record { sent = []; closed = false; outcomes = [] }

abbrev bridge : ℕ → Conn → Bridge
bridge idle client = record {
  client = client;
  device = record open_conn { sent = codes "x" };
  inward = new_flow 100;
  outward = new_flow 100;
  idle_timeout = idle;
  keepalive = true;
  ended = false;
  closing = false;
  returned = false;
}

abbrev quiet : Bridge
quiet = record (bridge 0 open_conn) { keepalive = false }

starts : new_bridge 100 0 open_conn (record open_conn { sent = codes "x" }) ≡ quiet
unfolding new_bridge
starts = refl

abbrev says : Bytes → Reading
says b = record { payload = b; fails = false }

abbrev leaves : Reading
leaves = record { payload = []; fails = true }

abbrev chat : List Event
chat =
    client_reads 101 (says (codes "ab"))
    ∷ device_reads 102 (says (codes "ok"))
    ∷ wakes
    ∷ client_reads 103 (record { payload = codes "c"; fails = true })
    ∷ client_reads 104 (says (codes "lost"))
    ∷ []

run-Delivers_example :
    ((run quiet chat).device.sent ≡ codes "x" ++ codes "abc")
    × ((run quiet chat).inward.counter % 2 ^ 64 ≡ (0 + 3) % 2 ^ 64)
run-Delivers_example = run-Delivers quiet chat (record {
  no_keepalive = refl;
  client_loop = refl;
  not_ended = refl;
  client_open = refl;
  device_open = record { not_closed = refl; no_outcomes = refl };
})

-- The client leaves, and nothing but the device can end the bridge.
run-IsWaiting_example : IsWaiting (
    run (bridge 60000000000 open_conn) (client_reads 101 leaves ∷ ticks 170 ∷ wakes ∷ returns ∷ []))
run-IsWaiting_example =
    run-IsWaiting (bridge 60000000000 open_conn)
      (client_reads 101 leaves ∷ ticks 170 ∷ wakes ∷ returns ∷ []) (tt, (tt, (tt, (tt, tt))))
      (record { device_loop = refl; not_ended = refl; not_closing = refl; not_returned = refl })

abbrev terminated : Bridge
terminated = record (bridge 0 (close open_conn)) { device = close open_conn }

run_returns_run :
    (run terminated
      (client_reads 101 leaves ∷ device_reads 101 leaves ∷ wakes ∷ returns ∷ [])).returned
    ≡ true
run_returns_run = run_returns terminated 101 101 leaves leaves refl refl

ticks-open_run :
    apply (bridge 60000000000 open_conn) (ticks 160) ≡ record (bridge 60000000000 open_conn) {
      client = record open_conn { sent = telnet_nop };
      device = record open_conn { sent = codes "x" ++ telnet_nop };
    }
ticks-open_run =
    ticks-open (bridge 60000000000 open_conn) 160 refl
      (record { not_closed = refl; no_outcomes = refl })
      (record { not_closed = refl; no_outcomes = refl })

abbrev broken : Conn
broken = record open_conn { outcomes = breaks 1 ∷ [] }

ticks_failed_run :
    apply (bridge 60000000000 broken) (ticks 160) ≡ record (bridge 60000000000 broken) {
      client = record { sent = 0xff ∷ []; closed = true; outcomes = [] };
      keepalive = false;
    }
unfolding write
ticks_failed_run = ticks_failed (bridge 60000000000 broken) 160 refl refl refl

run_outward_run :
    ((run quiet chat).client.sent ≡ [] ++ codes "ok")
    × ((run quiet chat).outward.counter % 2 ^ 64 ≡ (0 + 2) % 2 ^ 64)
run_outward_run = run_outward quiet chat (record {
  no_keepalive = refl;
  client_loop = refl;
  not_ended = refl;
  client_open = refl;
  device_open = record { not_closed = refl; no_outcomes = refl };
})
