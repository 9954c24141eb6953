-- ===== src/Tests/Requests.antt =====
-- Requests to the HTTP interface, on a world with one device and one session.
use proxy_rfc.Base.{
  ℕ, ◌+◌, ◌<◌, ◌^◌, ◌≡◌, ◌≢◌, ◌⊎◌, ◌↔◌, refl, true, false, none, some, [], ◌∷◌, ◌++◌, Bytes, codes,
  All, bytes_eq, is_empty, arith, if◌then◌else◌,
}
use proxy_rfc.Api.{
  Request, Response, respond, Cookie, status_json, html, Host, is_logged_in, is_authorized, mask_ip,
}
use proxy_rfc.Api.Auth.{Holds, is_authorized_iff, login_lem}
use proxy_rfc.Api.Effects.{IsEffect, closed_both, serve-IsEffect}
use proxy_rfc.Worlds.Forced.{bridge_in, serve_ends_session}
use proxy_rfc.Bridge.{Reading, Bridge, new_bridge, client_reads, device_reads, wakes, returns, run}
use proxy_rfc.Api.Handlers.{login, dashboard}
use proxy_rfc.Api.Masking.{mask_ip_lem}
use proxy_rfc.Api.Privacy.{readdress, serve_masks}
use proxy_rfc.Api.Rows.{Shows, device_lines, session_lines, dashboard-Shows}
use proxy_rfc.Api.Server.{serve}
use proxy_rfc.Base64.{encode, decode}
use proxy_rfc.Config.{Config}
use proxy_rfc.Device.{Device, is_in_session}
use proxy_rfc.Handler.{World, Client, bridge_close, client_finish}
use proxy_rfc.Modem.{new_modem_state}
use proxy_rfc.Protocol.{dt}
use proxy_rfc.Session.{
  Session, Manager, new_manager, set_callbacks, create, session_info_of, get_session,
}
use proxy_rfc.Session.Lifecycle.{IsManaged, create_lem}

abbrev pub config : Config
config = record {
  port = codes "2217";
  api_port = codes "8080";
  auth_token = [];
  web_user = codes "admin";
  web_pass = codes "secret";
  keep_alive = 30000000000;
  init_timeout = 5000000000;
  post_connect_timeout = 60000000000;
  idle_timeout = 30000000000;
  debug = false;
  debug_http = false;
  proxy_protocol = false;
}

abbrev pub host : Host
host = record {
  remote_addr = λ conn. codes "10.1.2.3:4567";
  seconds_since = λ t. 61;
  format_date_time = λ t. codes "2024-01-01 00:00:00";
  format_time = λ t. codes "00:00:00";
}

abbrev meter : Device
meter = record {
  id = codes "meter";
  conn = 7;
  registered_at = 1700000000;
  in_session = true;
  session_id = codes "sess_1700000000_1";
  stopped = false;
}

abbrev fresh : Manager
fresh = set_callbacks (new_manager false 60)

IsManaged-fresh : IsManaged fresh
unfolding set_callbacks new_manager
IsManaged-fresh = record { unique = tt; entries = tt; balanced = λ _. refl }

fresh_room : fresh.counter + 1 < 2 ^ 64
unfolding set_callbacks new_manager
fresh_room = ground arith

abbrev running : Manager
running = (create fresh 1700000000 (codes "meter") 3 7).0

abbrev session : Session
session = (create fresh 1700000000 (codes "meter") 3 7).1

abbrev pub world : World
world = record {
  registry = (codes "meter", 0) ∷ [];
  devices = λ ref. meter;
  manager = running;
  conns = λ ref. record { sent = []; closed = false; outcomes = [] };
  next_ref = 1;
}

abbrev pub asks : Bytes → Bytes → Request
asks method path = record {
  method = method;
  path = path;
  cookie = none;
  basic_auth = none;
  username = [];
  password = [];
}

encodes_login : encode (codes "admin:secret") ≡ codes "YWRtaW46c2VjcmV0"
unfolding encode proxy_rfc.Base64.char_of
encodes_login = refl

decodes_login : decode (codes "YWRtaW46c2VjcmV0") ≡ some (codes "admin:secret")
unfolding decode proxy_rfc.Base64.decode_chars proxy_rfc.Base64.drop_line_ends
    proxy_rfc.Base64.value_of
decodes_login = refl

-- Another address with the same first octet.
abbrev elsewhere : ℕ → Bytes
elsewhere conn = codes "10.99.0.1:80"

serve_masks_example :
    (is_authorized config (asks (codes "GET") (codes "/")) ≡ false
      → serve config host world (asks (codes "GET") (codes "/"))
        ≡ serve config (readdress elsewhere host) world (asks (codes "GET") (codes "/")))
    × (is_logged_in config (asks (codes "GET") (codes "/")) ≡ false
        → dashboard config host world (asks (codes "GET") (codes "/"))
          ≡ dashboard config (readdress elsewhere host) world (asks (codes "GET") (codes "/")))
unfolding mask_ip
serve_masks_example =
    serve_masks host elsewhere (λ conn. refl) config world (asks (codes "GET") (codes "/"))

abbrev ends_it : Request
ends_it = record (asks (codes "DELETE") (codes "/api/v1/sessions/sess_1700000000_1")) {
  basic_auth = some (codes "admin", codes "secret");
}

serve-IsEffect_example :
    (answer : World × Response) × (serve config host world ends_it ≡ some answer)
    × IsEffect config world ends_it answer
serve-IsEffect_example = serve-IsEffect config world ends_it host

-- The client of the session, dialled through a modem.
abbrev caller : Client
caller = record {
  conn = 3;
  modem = some new_modem_state;
  at_command = record { cmd = dt; param = codes "meter"; skipped = []; usrvcom = none };
  unread = [];
}

abbrev chatting : Bridge
chatting = new_bridge 1700000000 0 (world.conns 3) (world.conns 7)

abbrev anything : Reading
anything = record { payload = codes "x"; fails = false }

serve_ends_session_example :
    let w' = closed_both world session in
    let w'' = client_finish (bridge_close w' session) caller session 0 in
    (serve config host world ends_it ≡ some (w', respond 200 (status_json (codes "terminated"))))
    × ((run
          (bridge_in w' session chatting)
          (client_reads 5 anything ∷ device_reads 6 anything ∷ wakes ∷ returns ∷ [])).returned
        ≡ true)
    × (get_session w''.manager (codes "sess_1700000000_1") ≡ none)
    × (is_in_session (w''.devices 0) ≡ false)
unfolding is_authorized bytes_eq get_session proxy_rfc.SyncMap.load create set_callbacks
    proxy_rfc.SyncMap.store new_manager proxy_rfc.Session.session_id proxy_rfc.Decimal.decimal
serve_ends_session_example =
    serve_ends_session config host world ends_it (codes "sess_1700000000_1") session chatting 5 6
      anything anything caller 0
      (create_lem fresh 1700000000 (codes "meter") 3 7 IsManaged-fresh fresh_room).0 refl refl refl
      refl refl

abbrev with_cookie : Request
with_cookie = record (asks (codes "GET") (codes "/")) { cookie = some (codes "YWRtaW46c2VjcmV0") }

is_authorized_iff_example :
    ((is_logged_in config with_cookie ≡ true)
      ↔ Holds (some (codes "YWRtaW46c2VjcmV0")) (codes "admin") (codes "secret"))
    × ((is_authorized config with_cookie ≡ true) ↔ (
        Holds (some (codes "YWRtaW46c2VjcmV0")) (codes "admin") (codes "secret")
        ⊎ (with_cookie.basic_auth ≡ some (codes "admin", codes "secret"))))
is_authorized_iff_example = is_authorized_iff config with_cookie

abbrev logs_in : Request
logs_in = record (asks (codes "POST") (codes "/login")) {
  username = codes "admin";
  password = codes "secret";
}

login_lem_example :
    ((codes "admin" ≡ codes "admin")
      × (codes "secret" ≡ codes "secret")
      × ((c : Cookie) × ((login config logs_in).cookie ≡ some c)
          × ((next : Request)
              → next.cookie ≡ some c.value
              → (is_logged_in config next ≡ true) ↔ All (λ b. b ≢ b':') (codes "admin"))))
    ⊎ (¬ ((codes "admin" ≡ codes "admin") × (codes "secret" ≡ codes "secret"))
        × ((login config logs_in).cookie ≡ none)
        × ((login config logs_in).status ≡ 401))
login_lem_example = login_lem config logs_in (ground arith) (ground arith) refl

mask_ip_lem_run :
    ((x : ℕ)
      → x ≢ b'.'
      → (rest : Bytes)
      → mask_ip ((x ∷ codes "0") ++ (b'.' ∷ rest)) ≡ (x ∷ codes "0") ++ codes ".x.x.x:xxxxx")
    × (mask_ip (codes "0") ≡ (if is_empty (codes "0") then [] else codes "x.x.x.x:xxxxx"))
    × ((rest : Bytes) → mask_ip (b'.' ∷ rest) ≡ codes "x.x.x.x:xxxxx")
mask_ip_lem_run = mask_ip_lem (codes "0") (omega arith, tt)

-- The zone of an IPv6 address may hold the first dot; then the whole address is shown.
shows_address :
    mask_ip (codes "[fe80::1:2:3:4%eth0.100]:5000") ≡ codes "[fe80::1:2:3:4%eth0.x.x.x:xxxxx"
unfolding mask_ip
shows_address = refl

dashboard-Shows_example :
    let logged_in = is_logged_in config (asks (codes "GET") (codes "/")) in
    (page : Bytes) × (dashboard config host world (asks (codes "GET") (codes "/"))
      ≡ respond 200 (html page))
    × Shows (device_lines host logged_in world.devices world.registry) page
    × Shows (session_lines host logged_in world.manager.sessions) page
dashboard-Shows_example = dashboard-Shows config host world (asks (codes "GET") (codes "/")) refl
