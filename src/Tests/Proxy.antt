-- ===== src/Tests/Proxy.antt =====
-- The handlers in a small world: one registered device, two clients.
use proxy_rfc.Base.{
  ℕ, ◌≡◌, ◌≢◌, ◌↔◌, refl, true, false, none, some, [], ◌∷◌, ◌++◌, Bytes, codes, bytes_eq,
  if◌then◌else◌, arith,
}
use proxy_rfc.Conn.{Conn, Stream, breaks, buffered, bytes}
use proxy_rfc.Device.{Device, get, is_in_session}
use proxy_rfc.Modem.{new_modem_state}
use proxy_rfc.Protocol.{AtCommand, connect}
use proxy_rfc.Session.{put_conn, Session, create, get_session}
use proxy_rfc.Session.Lifecycle.{IsManaged}
use proxy_rfc.Handler.{
  World, wrote, parse_token, Client, client_check, write_client_error, client_start, client_open,
  bridge_close, client_finish, new_device, device_exit, register_device, write_connect,
}
use proxy_rfc.Handler.Token.{Names, parse_token_iff}
use proxy_rfc.Handler.Clients.{client_check_iff, client_open_refused, client_open_exclusive}
use proxy_rfc.Handler.Races.{start-session, double_booking}
use proxy_rfc.Handler.Registration.{register_device_lem}
use proxy_rfc.Handler.Endings.{client_finish_lem, stale_exit}
use proxy_rfc.Handler.Forwarding.{client_start_forwards, preset_bytes, late_bytes}

abbrev pub open_conn : Conn
open_conn = record { sent = []; closed = false; outcomes = [] }

abbrev meter : Device
meter = new_device (codes "meter") 7 1700000000

abbrev pub world : World
world = record {
  registry = (codes "meter", 0) ∷ [];
  devices = λ _. meter;
  manager = record {
    sessions = [];
    counter = 0;
    debug = false;
    idle_timeout = 60;
    has_callbacks = true;
    notices = [];
  };
  conns = λ _. open_conn;
  next_ref = 1;
}

IsManaged-world : IsManaged world.manager
IsManaged-world = record { unique = tt; entries = tt; balanced = λ _. refl }

-- A client that names the device behind the token "k", with data before and behind its command.
abbrev pub caller : ℕ → Client
caller conn = record {
  conn = conn;
  modem = none;
  at_command = record {
    cmd = connect;
    param = codes "k+meter";
    skipped = codes "pre";
    usrvcom = none;
  };
  unread = bytes (codes "late");
}

abbrev pub stranger : Client
stranger = record (caller 4) {
  at_command = record { cmd = connect; param = codes "k+other"; skipped = []; usrvcom = none };
  modem = some new_modem_state;
}

parse_token_iff_example :
    (parse_token (codes "k") (codes "k+meter") ≡ some (codes "meter"))
    ↔ (Names (codes "k") (codes "k+meter") (codes "meter") × (codes "meter" ≢ []))
parse_token_iff_example = parse_token_iff (codes "k") (codes "k+meter") (codes "meter")

names_meter : parse_token (codes "k") (codes "k+meter") ≡ some (codes "meter")
unfolding parse_token proxy_rfc.Text.split_at bytes_eq
names_meter = refl

client_check_iff_run : (client_check (codes "k") world (caller 3) ≡ some 0) ↔ (
    (id : Bytes) × (parse_token (codes "k") (codes "k+meter") ≡ some id)
    × (get id world.registry ≡ some 0)
    × (is_in_session meter ≡ false))
client_check_iff_run = client_check_iff (codes "k") world (caller 3) 0

passes : (conn : ℕ) → client_check (codes "k") world (caller conn) ≡ some 0
unfolding client_check parse_token proxy_rfc.Text.split_at bytes_eq get proxy_rfc.SyncMap.load
    is_in_session
passes conn = refl

refuses : client_check (codes "k") world stranger ≡ none
unfolding client_check parse_token proxy_rfc.Text.split_at bytes_eq get proxy_rfc.SyncMap.load
refuses = refl

client_open_refused_run : client_open (codes "k") 1700000100 world stranger ≡ (
  record world {
    conns = put_conn 4 (record open_conn { sent = codes "\r\nNO CARRIER\r\n" }) world.conns;
  },
  none,
)
client_open_refused_run =
    client_open_refused (codes "k") 1700000100 world stranger refuses
      (record { not_closed = refl; no_outcomes = refl })

abbrev first : Session
first = (create world.manager 1700000100 (codes "meter") 3 7).1

opens : (client_open (codes "k") 1700000100 world (caller 3)).1 ≡ some first
unfolding client_open parse_token proxy_rfc.Text.split_at bytes_eq client_check get
    proxy_rfc.SyncMap.load is_in_session client_start write_connect proxy_rfc.Protocol.write_ok
    proxy_rfc.Handler.client_create
opens = refl

client_open_exclusive_example :
    client_check (codes "k") (client_open (codes "k") 1700000100 world (caller 3)).0 (caller 4)
    ≡ none
client_open_exclusive_example =
    client_open_exclusive (codes "k") 1700000100 world (caller 3) (caller 4) (codes "meter")
      names_meter names_meter opens

client_start_forwards_run :
    ((client_start 1700000100 world (caller 3) (codes "meter") 0).0.conns 7).sent
    ≡ [] ++ (preset_bytes none (codes "pre") ++ late_bytes (buffered (bytes (codes "late"))))
unfolding write_connect proxy_rfc.Protocol.write_ok proxy_rfc.Conn.write buffered
client_start_forwards_run =
    client_start_forwards 1700000100 world (caller 3) (codes "meter") 0 refl (λ q. omega arith)
      (record { not_closed = refl; no_outcomes = refl }) (ground arith) (ground arith) tt

abbrev second : Session
second =
    (create (client_start 1700000100 world (caller 3) (codes "meter") 0).0.manager 1700000100
      (codes "meter") 4 7).1

starts_first : (client_start 1700000100 world (caller 3) (codes "meter") 0).1 ≡ some first
unfolding client_start write_connect proxy_rfc.Protocol.write_ok proxy_rfc.Handler.client_create
starts_first = refl

starts_second :
    (client_start 1700000100
      (client_start 1700000100 world (caller 3) (codes "meter") 0).0
      (caller 4)
      (codes "meter")
      0).1
    ≡ some second
unfolding client_start write_connect proxy_rfc.Protocol.write_ok proxy_rfc.Handler.client_create
    proxy_rfc.Handler.client_forward proxy_rfc.Device.set_session
starts_second = refl

double_booking_example :
    let m =
      (client_start 1700000100
        (client_start 1700000100 world (caller 3) (codes "meter") 0).0
        (caller 4)
        (codes "meter")
        0).0.manager in
    (get_session m first.id ≡ some first)
    × (get_session m second.id ≡ some second)
    × (first.id ≢ second.id)
    × (first.device_id ≡ codes "meter")
    × (second.device_id ≡ codes "meter")
double_booking_example =
    double_booking (codes "k") 1700000100 1700000100 world (caller 3) (caller 4) (codes "meter") 0
      IsManaged-world (ground arith) (passes 3) (passes 4) starts_first starts_second

registers : (register_device 1700000200 world 9 (codes "meter")).1 ≡ some 1
unfolding register_device proxy_rfc.Protocol.write_ok proxy_rfc.Handler.add_device get
    proxy_rfc.SyncMap.load bytes_eq
registers = refl

register_device_lem_example :
    let w' = (register_device 1700000200 world 9 (codes "meter")).0 in
    ((other : Bytes)
      → get other w'.registry
        ≡ (if bytes_eq (codes "meter") other then some 1 else get other world.registry))
    × (w'.devices 1 ≡ new_device (codes "meter") 9 1700000200)
    × ((w'.conns 9).closed ≡ false)
    × (((w'.devices 0).stopped ≡ true) × ((w'.conns 7).closed ≡ true))
unfolding get proxy_rfc.SyncMap.load bytes_eq
register_device_lem_example =
    register_device_lem 1700000200 world 9 (codes "meter") (ground arith) (ground arith) registers

stale_exit_example :
    let w' = device_exit (register_device 1700000200 world 9 (codes "meter")).0 (codes "meter") in
    (get (codes "meter") w'.registry ≡ none)
    × ((w'.devices 1).stopped ≡ false)
    × ((w'.conns 9).closed ≡ false)
    × (client_check (codes "k") w' (caller 3) ≡ none)
stale_exit_example =
    stale_exit (codes "k") 1700000200 world 9 (codes "meter") (caller 3) (ground arith) registers
      names_meter

-- The world in which the first session runs.
abbrev bridged : World
bridged = (client_start 1700000100 world (caller 3) (codes "meter") 0).0

IsManaged-bridged : IsManaged bridged.manager
IsManaged-bridged =
    (start-session 1700000100 world (caller 3) (codes "meter") 0 IsManaged-world (ground arith)
      starts_first).0

client_finish_lem_example :
    let w' = client_finish (bridge_close bridged first) (caller 3) first 0 in
    IsManaged w'.manager
    × (get_session w'.manager first.id ≡ none)
    × (is_in_session (w'.devices 0) ≡ false)
    × (w'.registry ≡ bridged.registry)
    × ((w'.conns 3).closed ≡ true)
    × ((w'.conns 3).sent ≡ (bridged.conns 3).sent)
unfolding create
client_finish_lem_example = client_finish_lem bridged (caller 3) first 0 IsManaged-bridged refl
