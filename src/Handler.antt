-- ===== src/Handler.antt =====
-- internal/connection/handler.go: the handlers of devices and clients, as the steps that they make
-- on what they share: the registry, the device objects, the session manager and the connections. A
-- handler that waits (for a read, or for its bridge) is cut there; what it does afterwards is a
-- step of its own, and other handlers may make steps in between. So are a client's check and its
-- start, since the code takes no lock over both. Socket options are in Keepalive; the log is left
-- out.
pub mod Token
pub mod Clients
pub mod Admission
pub mod Races
pub mod Registration
pub mod Endings
pub mod Forwarding
pub mod Setting
pub mod Wait
use proxy_rfc.Base.{
  ℕ, zero, suc, ◌+◌, Bool, true, false, not, ◌&&◌, ◌||◌, Option, none, some, List, [], ◌∷◌, ◌++◌,
  Bytes, codes, bytes_eq, is_empty, length, leb, ◌==◌, if◌then◌else◌,
}
use proxy_rfc.Conn.{Conn, Written, write, close, Stream, buffered}
use proxy_rfc.Device.{
  Device, Devices, Registry, register, unregister, get, set_session, clear_session, is_in_session,
  put_device,
}
use proxy_rfc.Forward.{preset_buffer, forward, forward_late}
use proxy_rfc.Modem.{ModemState, write_modem_connect, write_modem_no_carrier}
use mathlib.Core.Option
use proxy_rfc.Protocol.{
  ReadResult, command, failed, read_plain_at_command, AtCommand, Cmd, dt, dp, write_ok, write_error,
}
use proxy_rfc.Rfc2217.{Buffer, parse_commands}
use proxy_rfc.Session.{Session, Manager, create, end_session, Conns, put_conn, close_conn}
use proxy_rfc.Text.{split_at}
use proxy_rfc.Usrvcom.{UsrVcomConfig, is_usrvcom, parse_usrvcom, to_commands, build_packet}

pub record World : Type 0 where
  pub registry : Registry
  pub devices : Devices
  pub manager : Manager
  pub conns : Conns
  -- The next reference for a device object.
  pub next_ref : ℕ

-- What one write leaves of the world.
abbrev pub wrote : World → ℕ → Written → World
wrote w conn r = record w { conns = put_conn conn r.conn w.conns }

-- `AUTH_TOKEN+DEVICE_ID`, where a token is configured.
abbrev pub check_auth : Bytes → Option (Bytes × Bytes) → Option Bytes
check_auth auth none = none
check_auth auth (some (given, id)) = if bytes_eq given auth then some id else none

abbrev pub non_empty_id : Option Bytes → Option Bytes
non_empty_id none = none
non_empty_id (some id) = if is_empty id then none else some id

-- The device identifier in a token, the same in `handleDevice` and `handleClient`; `none` where
-- they refuse the token.
unfoldable pub parse_token : Bytes → Bytes → Option Bytes
parse_token auth token =
    if is_empty token
    then none
    else non_empty_id
        (if not (is_empty auth) then check_auth auth (split_at b'+' token) else some token)

-- The closure `writeError` of `handleClient`.
unfoldable pub write_client_error : Option ModemState → Conn → Written
write_client_error none conn = write_error conn
write_client_error (some m) conn = write_modem_no_carrier m conn

-- A client as its handler knows it: its connection, the modem if it dialled, its command and what
-- its reader still holds.
pub record Client : Type 0 where
  pub conn : ℕ
  pub modem : Option ModemState
  pub at_command : AtCommand
  pub unread : Stream

-- `handleClient` up to the check that the device is free: the device object, or an answer.
abbrev pub find_free : World → Option ℕ → Option ℕ
find_free w none = none
find_free w (some ref) = if is_in_session (w.devices ref) then none else some ref

abbrev pub lookup_device : World → Option Bytes → Option ℕ
lookup_device w none = none
lookup_device w (some id) = find_free w (get id w.registry)

unfoldable pub client_check : Bytes → World → Client → Option ℕ
client_check auth w c = lookup_device w (parse_token auth c.at_command.param)

unfoldable pub client_refuse : World → Client → World
client_refuse w c = wrote w c.conn (write_client_error c.modem (w.conns c.conn))

unfoldable pub write_connect : Option ModemState → Conn → Written
write_connect none conn = write_ok conn
write_connect (some m) conn = write_modem_connect m conn

-- The session object and the device's mark.
unfoldable pub client_create : ℕ → World → Client → Bytes → ℕ → World × Session
client_create now w c id ref =
    let dev = w.devices ref in
    let made = create w.manager now id c.conn dev.conn in
    (
      record w { manager = made.0; devices = put_device ref (set_session made.1.id dev) w.devices },
      made.1,
    )

-- `sessions.End` and `dev.ClearSession`.
unfoldable pub session_cleanup : World → Session → ℕ → World
session_cleanup w s ref = record w {
  manager = end_session w.manager s.id;
  devices = put_device ref (clear_session (w.devices ref)) w.devices;
}

-- The data before and behind the command, on their way to the device.
unfoldable pub client_forward : World → Client → ℕ → World
client_forward w c dev_conn = record w {
  conns =
      put_conn dev_conn
        (forward_late (buffered c.unread) (forward (preset_buffer c.at_command) (w.conns dev_conn)))
        w.conns;
}

-- From the check to the bridge: the session that the bridge then runs, or none.
abbrev pub client_answered : World → Client → Session → ℕ → ℕ → Written → World × Option Session
client_answered w c s ref dev_conn r =
    if r.ok
    then (client_forward (wrote w c.conn r) c dev_conn, some s)
    else (session_cleanup (wrote w c.conn r) s ref, none)

unfoldable pub client_start : ℕ → World → Client → Bytes → ℕ → World × Option Session
client_start now w c id ref =
    let made = client_create now w c id ref in
    client_answered made.0 c made.1 ref (w.devices ref).conn
      (write_connect c.modem (made.0.conns c.conn))

-- `handleClient` up to its bridge, with no other handler between.
abbrev pub client_found : ℕ → World → Client → Option Bytes → Option ℕ → World × Option Session
client_found now w c (some id) (some ref) = client_start now w c id ref
client_found now w c _ _ = (client_refuse w c, none)

unfoldable pub client_open : Bytes → ℕ → World → Client → World × Option Session
client_open auth now w c =
    client_found now w c (parse_token auth c.at_command.param) (client_check auth w c)

-- The end of `Bridge.Run`: both connections are closed.
unfoldable pub bridge_close : World → Session → World
bridge_close w s = record w { conns = close_conn s.device_conn (close_conn s.client_conn w.conns) }

abbrev pub say_no_carrier : Option ModemState → World → ℕ → World
say_no_carrier none w conn = w
say_no_carrier (some m) w conn = wrote w conn (write_modem_no_carrier m (w.conns conn))

-- `handleClient` behind its bridge.
unfoldable pub client_finish : World → Client → Session → ℕ → World
client_finish w c s ref = say_no_carrier c.modem (session_cleanup w s ref) c.conn

-- `close` of an old device's `StopKeepalive`; `none` is the panic where it has been closed before,
-- which ends the program.
unfoldable pub stop_keepalive : World → ℕ → Option World
stop_keepalive w ref =
    if (w.devices ref).stopped
    then none
    else some (record w {
      devices = put_device ref (record (w.devices ref) { stopped = true }) w.devices;
    })

-- An old registration: its keepalive is stopped, its connection closed, its entry removed.
abbrev pub drop_existing : World → Bytes → Option ℕ → World
drop_existing w id none = w
drop_existing w id (some old) =
    let dev = w.devices old in
    record w {
      devices = put_device old (record dev { stopped = true }) w.devices;
      conns = close_conn dev.conn w.conns;
      registry = unregister id w.registry;
    }

abbrev pub new_device : Bytes → ℕ → ℕ → Device
new_device id conn now = record {
  id = id;
  conn = conn;
  registered_at = now;
  in_session = false;
  session_id = [];
  stopped = false;
}

unfoldable pub add_device : World → Device → World
add_device w dev = record w {
  registry = register dev w.next_ref w.registry;
  devices = put_device w.next_ref dev w.devices;
  next_ref = w.next_ref + 1;
}

-- The deferred `Unregister`, by identifier.
unfoldable pub device_exit : World → Bytes → World
device_exit w id = record w { registry = unregister id w.registry }

-- `handleDevice` behind the token, up to its wait: the reference of its device, or none where the
-- write of OK fails and it has returned.
unfoldable pub register_device : ℕ → World → ℕ → Bytes → World × Option ℕ
register_device now w conn id =
    let w1 = drop_existing w id (get id w.registry) in
    let w2 = add_device w1 (new_device id conn now) in
    if (write_ok (w2.conns conn)).ok
    then (wrote w2 conn (write_ok (w2.conns conn)), some w1.next_ref)
    else (device_exit (wrote w2 conn (write_ok (w2.conns conn))) id, none)

abbrev pub device_token : ℕ → World → ℕ → Option Bytes → World × Option ℕ
device_token now w conn none = (wrote w conn (write_error (w.conns conn)), none)
device_token now w conn (some id) = register_device now w conn id

unfoldable pub device_open : Bytes → ℕ → World → ℕ → Bytes → World × Option ℕ
device_open auth now w conn token = device_token now w conn (parse_token auth token)

abbrev pub is_dial : Cmd → Bool
is_dial dt = true
is_dial dp = true
is_dial _ = false

-- The optional ATDT or ATDP of a registered device gets an OK, whatever comes of the write.
unfoldable pub device_dialled : World → ℕ → AtCommand → World
device_dialled w conn c = if is_dial c.cmd then wrote w conn (write_ok (w.conns conn)) else w

-- The wait for it; the deadline of `PostConnectTimeout` is set before.
abbrev pub after_wait : World → ℕ → ReadResult → World
after_wait w conn (command c rest) = device_dialled w conn c
after_wait w conn (failed e rest) = w

unfoldable pub device_wait : (ℕ → ℕ) → Stream → World → ℕ → Option World
unfolding read_plain_at_command
device_wait since s w conn = Option.map (after_wait w conn) (read_plain_at_command since s)
