-- ===== src/Worlds/Passage.antt =====
-- A whole session: a client that internal/connection lets through, the answer and the data that it
-- sends before the bridge, and the bridge of internal/session behind it.
use mathlib.Core.List.{append_assoc}
use proxy_rfc.Base.{
  ℕ, ◌≡◌, ◌≢◌, refl, ap, ◌∙◌, true, Option, none, some, List, ◌++◌, Bytes, codes, IsBytes,
  if◌then◌else◌, is_positive,
}
use proxy_rfc.Bridge.{Bridge, Event, new_bridge, run}
use proxy_rfc.Bridge.Delivery.{client_data}
use proxy_rfc.Bridge.Mirror.{device_data}
use proxy_rfc.Bridge.Padding.{Padded}
use proxy_rfc.Bridge.Passing.{Passes, run-Passes}
use proxy_rfc.Conn.{Conn, buffered}
use proxy_rfc.Conn.Open.{IsOpen, write_open_lem}
use proxy_rfc.Handler.{World, Client, client_check, client_open, client_start, write_connect}
use proxy_rfc.Handler.Clients.{
  made, made-session, after_start, after_start-conns, after_start-client, client_start-ok,
  client_open-check,
}
use proxy_rfc.Handler.Forwarding.{forwarded, preset_bytes, late_bytes, IsValidPreset}
use proxy_rfc.Modem.{ModemState, write_modem_connect}
use proxy_rfc.Protocol.{write_ok}
use proxy_rfc.Session.{Session, create}

-- The bridge of a session as `handleClient` starts it.
abbrev pub bridge_of : ℕ → World → Session → Bridge
bridge_of now w s = new_bridge now s.idle_timeout (w.conns s.client_conn) (w.conns s.device_conn)

-- What tells a client that it is connected: OK, or CONNECT for one that has dialled, in words or as
-- a number.
abbrev pub greeting : Option ModemState → Bytes
greeting none = codes "OK\r\n"
greeting (some m) = if m.verbose then codes "\r\nCONNECT 9600\r\n" else codes "1\r"

write_connect-greeting :
    (o : Option ModemState) (conn : Conn)
    → IsOpen conn
    → ((write_connect o conn).ok ≡ true)
      × ((write_connect o conn).conn ≡ record conn { sent = conn.sent ++ greeting o })
unfolding write_connect write_ok write_modem_connect
write_connect-greeting none conn h =
    let e = write_open_lem conn (greeting none) h in (ap (λ w. w.ok) e, ap (λ w. w.conn) e)
write_connect-greeting (some m) conn h =
    let e = write_open_lem conn (greeting (some m)) h in (ap (λ w. w.ok) e, ap (λ w. w.conn) e)

-- A new bridge passes on what is read, both ways, with its keepalive's NOPs where it has one.
new_bridge-Passes :
    (now idle : ℕ) (client device : Conn) (es : List Event)
    → IsOpen client
    → IsOpen device
    → Passes (new_bridge now idle client device) es (run (new_bridge now idle client device) es)
unfolding new_bridge
new_bridge-Passes now idle client device es c d =
    run-Passes (new_bridge now idle client device) es
      (record { not_ended = refl; client_opened = c; device_opened = d })

more_sent-IsOpen : (conn : Conn) (b : Bytes) → IsOpen conn → IsOpen (record conn { sent = b })
more_sent-IsOpen conn b h = record { not_closed = h.not_closed; no_outcomes = h.no_outcomes }

made-fields :
    (now : ℕ) (w : World) (c : Client) (id : Bytes) (ref : ℕ)
    → let s = (made now w c id ref).1 in
      (s.client_conn ≡ c.conn)
      × (s.device_conn ≡ (w.devices ref).conn)
      × (s.idle_timeout ≡ w.manager.idle_timeout)
unfolding create
made-fields now w c id ref = rw (made-session now w c id ref) (refl, refl, refl)

-- What the handler leaves to the bridge: each connection's state.
module _ (now : ℕ) (w : World) (c : Client) (id : Bytes) (ref : ℕ)
    (apart : c.conn ≢ (w.devices ref).conn) (ready : IsOpen (w.conns c.conn))
    (device_ready : IsOpen (w.conns (w.devices ref).conn)) (hs : IsBytes c.at_command.skipped)
    (hb : IsBytes (buffered c.unread)) (v : IsValidPreset c.at_command.usrvcom) where
  abbrev device_before : Conn
  device_before = w.conns (w.devices ref).conn

  abbrev preamble : Bytes
  preamble =
      preset_bytes c.at_command.usrvcom c.at_command.skipped ++ late_bytes (buffered c.unread)

  client_after :
      (after_start now w c id ref).conns c.conn
      ≡ record (w.conns c.conn) { sent = (w.conns c.conn).sent ++ greeting c.modem }
  client_after =
      after_start-client now w c id ref apart
      ∙ (write_connect-greeting c.modem (w.conns c.conn) ready).1

  device_after :
      (after_start now w c id ref).conns (w.devices ref).conn
      ≡ record device_before { sent = device_before.sent ++ preamble }
  device_after =
      after_start-conns now w c id ref apart ∙ forwarded c device_before hs hb v device_ready

  started : client_start now w c id ref ≡ (after_start now w c id ref, some (made now w c id ref).1)
  started = client_start-ok now w c id ref (write_connect-greeting c.modem (w.conns c.conn) ready).0

  bridge_after :
      (now' : ℕ)
      → bridge_of now' (after_start now w c id ref) (made now w c id ref).1
        ≡ new_bridge now' w.manager.idle_timeout
            (record (w.conns c.conn) { sent = (w.conns c.conn).sent ++ greeting c.modem })
            (record device_before { sent = device_before.sent ++ preamble })
  bridge_after now' =
      let (client, device, idle) = made-fields now w c id ref in
      rw (client, device, idle, client_after, device_after) refl

  after_start-Passes :
      (now' : ℕ) (es : List Event)
      → let b = run (bridge_of now' (after_start now w c id ref) (made now w c id ref).1) es in
        (m n : Bytes) × (b.device.sent
          ≡ device_before.sent
            ++ (preset_bytes c.at_command.usrvcom c.at_command.skipped
                ++ (late_bytes (buffered c.unread) ++ m)))
        × (b.client.sent ≡ (w.conns c.conn).sent ++ (greeting c.modem ++ n))
        × Padded (is_positive w.manager.idle_timeout) (client_data es) m
        × Padded (is_positive w.manager.idle_timeout) (device_data es) n
  unfolding new_bridge
  after_start-Passes now' es =
      let ((m, inward, padded), (n, outward, padded')) =
        new_bridge-Passes now' w.manager.idle_timeout _ _ es
          (more_sent-IsOpen (w.conns c.conn) _ ready)
          (more_sent-IsOpen device_before _ device_ready) in
      rw (bridge_after now') (
        m,
        n,
        inward
            ∙ append_assoc device_before.sent preamble m
            ∙ ap (λ b. device_before.sent ++ b) (append_assoc _ _ m),
        outward ∙ append_assoc (w.conns c.conn).sent (greeting c.modem) n,
        padded,
        padded',
      )

-- A client that passes the check, whose connection and whose device's are two open ones that take
-- all writes, gets a session, and the session's bridge passes everything on in both directions: the
-- device is sent, behind what was sent before, the data from before the client's command, those
-- read with it, and then what the bridge reads from the client up to its first failing read; and
-- the client is sent the answer that it is connected and then what the bridge reads from the
-- device, however the bridge's events come between one another. Both are passed on in order and
-- without a change or a loss; only where the idle timeout is positive do NOPs of the keepalive come
-- between.
pub client_open_passes :
    (auth : Bytes) (now now' : ℕ) (w : World) (c : Client) (ref : ℕ) (es : List Event)
    → client_check auth w c ≡ some ref
    → c.conn ≢ (w.devices ref).conn
    → IsOpen (w.conns c.conn)
    → IsOpen (w.conns (w.devices ref).conn)
    → IsBytes c.at_command.skipped
    → IsBytes (buffered c.unread)
    → IsValidPreset c.at_command.usrvcom
    → (s : Session) × (m n : Bytes) × ((client_open auth now w c).1 ≡ some s)
      × ((run (bridge_of now' (client_open auth now w c).0 s) es).device.sent
          ≡ (w.conns (w.devices ref).conn).sent
            ++ (preset_bytes c.at_command.usrvcom c.at_command.skipped
                ++ (late_bytes (buffered c.unread) ++ m)))
      × ((run (bridge_of now' (client_open auth now w c).0 s) es).client.sent
          ≡ (w.conns c.conn).sent ++ (greeting c.modem ++ n))
      × Padded (is_positive w.manager.idle_timeout) (client_data es) m
      × Padded (is_positive w.manager.idle_timeout) (device_data es) n
client_open_passes auth now now' w c ref es e apart ready device_ready hs hb v =
    let (id, _, opened) = client_open-check auth now w c ref e in
    let all = opened ∙ started now w c id ref apart ready device_ready hs hb v in
    let (m, n, inward, outward, padded, padded') =
      after_start-Passes now w c id ref apart ready device_ready hs hb v now' es in
    rw all ((made now w c id ref).1, m, n, refl, inward, outward, padded, padded')
