-- ===== src/Tests/Passages.antt =====
-- A client from its first byte to the end of its session.
use proxy_rfc.Base.{
  ℕ, ◌≡◌, refl, true, false, none, some, List, [], ◌∷◌, ◌++◌, Bytes, codes, ◌⊎◌, arith,
}
use proxy_rfc.Bridge.{Event, client_reads, device_reads, ticks, wakes, run}
use proxy_rfc.Bridge.Padding.{Padded}
use proxy_rfc.Conn.{Conn, Stream, bytes, buffered}
use proxy_rfc.Device.{Device}
use proxy_rfc.Dispatch.{to_client, handle}
use proxy_rfc.Handler.{
  World, wrote, parse_token, new_device, client_check, client_open, device_open, device_wait,
}
use proxy_rfc.Handler.Forwarding.{late_bytes}
use proxy_rfc.Protocol.{AtCommand, connect, write_ok, read_plain_at_command}
use proxy_rfc.Session.{Session}
use proxy_rfc.Worlds.Passage.{bridge_of}
use proxy_rfc.Worlds.{heard}
use proxy_rfc.Worlds.Arrival.{arrived, handle_passes}
use proxy_rfc.Worlds.Standing.{dial_answer}
use proxy_rfc.Worlds.Meeting.{behind, registered_passes}

abbrev open_conn : Conn
open_conn = record { sent = []; closed = false; outcomes = [] }

abbrev meter : Device
meter = new_device (codes "meter") 7 1700000000

abbrev world : World
world = record {
  registry = (codes "meter", 0) ∷ [];
  devices = λ _. meter;
  manager = record {
    sessions = [];
    counter = 0;
    debug = false;
    idle_timeout = 5000000000;
    has_callbacks = true;
    notices = [];
  };
  conns = λ _. open_conn;
  next_ref = 1;
}

abbrev clock : ℕ → ℕ → ℕ
clock round n = round

-- Three bytes, the command, and two bytes behind it.
abbrev calls : Stream
calls = bytes (codes "preAT+CONNECT=k+meter\r\nhi")

abbrev asked : AtCommand
asked = record { cmd = connect; param = codes "k+meter"; skipped = codes "pre"; usrvcom = none }

abbrev chat : List Event
chat =
    client_reads 101 (record { payload = codes "ab"; fails = false })
    ∷ device_reads 102 (record { payload = codes "ok"; fails = true })
    ∷ ticks 107
    ∷ wakes
    ∷ client_reads 103 (record { payload = codes "c"; fails = true })
    ∷ []

asks :
    handle 60 30 clock calls (world.conns 3)
    ≡ some (to_client asked none open_conn, bytes (codes "hi"))
unfolding handle proxy_rfc.Dispatch.talk proxy_rfc.Protocol.read_at_command
    proxy_rfc.Protocol.read_loop proxy_rfc.Protocol.read_step proxy_rfc.Protocol.after_line
    proxy_rfc.Protocol.read_line proxy_rfc.Protocol.after_command proxy_rfc.Text.trim_space
    proxy_rfc.Text.trim_while proxy_rfc.Text.space_width proxy_rfc.Text.last_space_width
    proxy_rfc.Protocol.parse_at_command proxy_rfc.Text.has_prefix proxy_rfc.Text.to_upper
    proxy_rfc.Dispatch.dispatch proxy_rfc.Base.bytes_eq proxy_rfc.Conn.next_is
    proxy_rfc.Protocol.after_end proxy_rfc.Protocol.in_command proxy_rfc.Protocol.is_rfc2217_data
    proxy_rfc.Protocol.skip_lf proxy_rfc.Protocol.take_skipped proxy_rfc.Usrvcom.is_usrvcom
asks = refl

passes :
    client_check (codes "k") (heard world 3 open_conn) (arrived 3 asked none (bytes (codes "hi")))
    ≡ some 0
unfolding client_check proxy_rfc.Handler.parse_token proxy_rfc.Text.split_at proxy_rfc.Base.bytes_eq
    proxy_rfc.Device.get proxy_rfc.SyncMap.load proxy_rfc.Device.is_in_session
passes = refl

handle_passes_example :
    let opened =
      client_open
        (codes "k")
        1700000100
        (heard world 3 open_conn)
        (arrived 3 asked none (bytes (codes "hi"))) in
    (session : Session) × (said passed returned : Bytes) × (opened.1 ≡ some session)
    × (open_conn ≡ record (world.conns 3) { sent = [] ++ said })
    × ((run (bridge_of 100 opened.0 session) chat).device.sent
        ≡ [] ++ (codes "pre" ++ (late_bytes (buffered (bytes (codes "hi"))) ++ passed)))
    × ((run (bridge_of 100 opened.0 session) chat).client.sent
        ≡ [] ++ (said ++ (codes "OK\r\n" ++ returned)))
    × Padded true (codes "abc") passed
    × Padded true (codes "ok") returned
unfolding proxy_rfc.Usrvcom.is_usrvcom
handle_passes_example =
    handle_passes 60 30 clock calls (codes "k") 1700000100 100 world 3 asked none open_conn
      (bytes (codes "hi")) 0 chat (ground arith) asks passes (λ q. omega arith)
      (record { not_closed = refl; no_outcomes = refl })
      (record { not_closed = refl; no_outcomes = refl })

-- No device is registered yet.
abbrev quiet_world : World
quiet_world = record world { registry = [] }

abbrev registered : World
registered = (device_open (codes "k") 1700000000 quiet_world 5 (codes "k+meter")).0

-- The device dials.
abbrev dialled : World
dialled = wrote registered 5 (write_ok (registered.conns 5))

dials : device_wait (λ n. n) (bytes (codes "ATDT\r\n")) registered 5 ≡ some dialled
unfolding device_wait proxy_rfc.Handler.device_dialled proxy_rfc.Protocol.read_plain_at_command
    proxy_rfc.Protocol.read_at_command proxy_rfc.Protocol.read_loop proxy_rfc.Protocol.read_step
    proxy_rfc.Protocol.after_line proxy_rfc.Protocol.read_line proxy_rfc.Protocol.after_command
    proxy_rfc.Text.trim_space proxy_rfc.Text.trim_while proxy_rfc.Text.space_width
    proxy_rfc.Text.last_space_width proxy_rfc.Protocol.parse_at_command proxy_rfc.Text.has_prefix
    proxy_rfc.Text.to_upper proxy_rfc.Base.bytes_eq proxy_rfc.Conn.next_is
    proxy_rfc.Protocol.after_end proxy_rfc.Protocol.in_command proxy_rfc.Protocol.is_rfc2217_data
    proxy_rfc.Protocol.skip_lf proxy_rfc.Protocol.take_skipped proxy_rfc.Usrvcom.is_usrvcom
dials = refl

unchanged : dialled.conns 3 ≡ open_conn
unfolding device_open proxy_rfc.Handler.register_device proxy_rfc.Handler.parse_token
    proxy_rfc.Handler.add_device proxy_rfc.Text.split_at proxy_rfc.Base.bytes_eq write_ok
    proxy_rfc.Conn.write proxy_rfc.Device.get proxy_rfc.SyncMap.load
unchanged = refl

names_meter : parse_token (codes "k") (codes "k+meter") ≡ some (codes "meter")
unfolding parse_token proxy_rfc.Text.split_at proxy_rfc.Base.bytes_eq
names_meter = refl

registered_passes_example :
    let opened =
      client_open
        (codes "k")
        1700000100
        (heard dialled 3 open_conn)
        (arrived 3 asked none (bytes (codes "hi"))) in
    (session : Session) × (said passed returned : Bytes) × (opened.1 ≡ some session)
    × (open_conn ≡ record (dialled.conns 3) { sent = (dialled.conns 3).sent ++ said })
    × ((run (bridge_of 100 opened.0 session) chat).device.sent
        ≡ ([]
            ++ (codes "OK\r\n"
                ++ dial_answer (read_plain_at_command (λ n. n) (bytes (codes "ATDT\r\n")))))
          ++ behind asked (bytes (codes "hi")) passed)
    × ((run (bridge_of 100 opened.0 session) chat).client.sent
        ≡ (dialled.conns 3).sent ++ (said ++ (codes "OK\r\n" ++ returned)))
    × Padded true (codes "abc") passed
    × Padded true (codes "ok") returned
registered_passes_example =
    registered_passes (codes "k") 1700000000 1700000100 100 quiet_world dialled 5 (codes "k+meter")
      (codes "meter") (λ n. n) (bytes (codes "ATDT\r\n")) 60 30 clock calls 3 asked none open_conn
      (bytes (codes "hi")) chat names_meter tt (λ old e. cc)
      (record { not_closed = refl; no_outcomes = refl }) dials (ground arith) (rw unchanged asks)
      names_meter (λ q. omega arith)
      (rw unchanged (record { not_closed = refl; no_outcomes = refl }))
