-- ===== src/Session.antt =====
-- internal/session/manager.go: sessions and their manager. Time and the connections are arguments.
-- The sessions of the map are objects that their bridges share; a session is in at most one map
-- entry, under its own identifier.
pub mod Ids
pub mod Lifecycle
pub mod Refinement
use proxy_rfc.Base.{
  ℕ, zero, suc, ◌+◌, ◌%◌, ◌^◌, Bool, true, false, Option, none, some, List, [], ◌∷◌, ◌++◌, Bytes,
  codes, bytes_eq, length, map, if◌then◌else◌, ◌==◌,
}
use proxy_rfc.Conn.{Conn, close}
use proxy_rfc.Decimal.{decimal}
use proxy_rfc.SyncMap.{load, store, delete, values}

pub record Session : Type 0 where
  pub id : Bytes
  pub device_id : Bytes
  pub client_conn : ℕ
  pub device_conn : ℕ
  pub started_at : ℕ
  pub bytes_in : ℕ
  pub bytes_out : ℕ
  pub debug : Bool
  pub idle_timeout : ℕ
  -- The channel `done` has been closed.
  pub ended : Bool

-- A call of `onStart` or `onEnd`.
pub data Notice : Type 0 where
  started : Session → Notice
  finished : Session → Notice

pub record Manager : Type 0 where
  pub sessions : List (Bytes × Session)
  pub counter : ℕ
  pub debug : Bool
  pub idle_timeout : ℕ
  pub has_callbacks : Bool
  pub notices : List Notice

unfoldable pub new_manager : Bool → ℕ → Manager
new_manager debug idle_timeout = record {
  sessions = [];
  counter = 0;
  debug = debug;
  idle_timeout = idle_timeout;
  has_callbacks = false;
  notices = [];
}

unfoldable pub set_callbacks : Manager → Manager
set_callbacks m = record m { has_callbacks = true }

-- `fmt.Sprintf("sess_%d_%d", now, counter)`.
unfoldable pub session_id : ℕ → ℕ → Bytes
session_id now n = codes "sess_" ++ (decimal now ++ (b'_' ∷ decimal n))

abbrev pub notify : Manager → Notice → Manager
notify m n = if m.has_callbacks then record m { notices = m.notices ++ (n ∷ []) } else m

-- `atomic.AddUint64` wraps around.
abbrev pub next_count : Manager → ℕ
next_count m = (m.counter + 1) % 2 ^ 64

unfoldable pub new_session : Manager → ℕ → Bytes → ℕ → ℕ → Session
new_session m now device_id client_conn device_conn = record {
  id = session_id now (next_count m);
  device_id = device_id;
  client_conn = client_conn;
  device_conn = device_conn;
  started_at = now;
  bytes_in = 0;
  bytes_out = 0;
  debug = m.debug;
  idle_timeout = m.idle_timeout;
  ended = false;
}

unfoldable pub create : Manager → ℕ → Bytes → ℕ → ℕ → Manager × Session
unfolding new_session
create m now device_id client_conn device_conn =
    let s = new_session m now device_id client_conn device_conn in
    (
      notify (record m { sessions = store s.id s m.sessions; counter = next_count m }) (started s),
      s,
    )

-- `LoadAndDelete`, the closing of `done`, and the callback.
abbrev pub end_found : Manager → Bytes → Option Session → Manager
end_found m id none = m
end_found m id (some s) =
    notify (record m { sessions = delete id m.sessions }) (finished (record s { ended = true }))

unfoldable pub end_session : Manager → Bytes → Manager
end_session m id = end_found m id (load id m.sessions)

-- The connections by reference.
abbrev pub Conns : Type 0
Conns = ℕ → Conn

abbrev pub put_conn : ℕ → Conn → Conns → Conns
put_conn ref c conns r = if ref == r then c else conns r

abbrev pub close_conn : ℕ → Conns → Conns
close_conn ref conns = put_conn ref (close (conns ref)) conns

abbrev pub terminate_found : Option Session → Conns → Conns × Bool
terminate_found none conns = (conns, false)
terminate_found (some s) conns = (close_conn s.device_conn (close_conn s.client_conn conns), true)

-- `Terminate`: the session stays in the map until its bridge ends.
unfoldable pub terminate : Manager → Bytes → Conns → Conns × Bool
terminate m id conns = terminate_found (load id m.sessions) conns

unfoldable pub get_session : Manager → Bytes → Option Session
get_session m id = load id m.sessions

-- The loop of `GetByDevice`: Range stops at the first session of the device.
unfoldable pub find_device : Bytes → List (Bytes × Session) → Option Session
find_device device_id [] = none
find_device device_id ((id, s) ∷ rest) =
    if bytes_eq s.device_id device_id then some s else find_device device_id rest

unfoldable pub get_by_device : Manager → Bytes → Option Session
unfolding find_device
get_by_device m device_id = find_device device_id m.sessions

unfoldable pub list_sessions : Manager → List Session
list_sessions m = values m.sessions

unfoldable pub count_sessions : Manager → ℕ
count_sessions m = length m.sessions

pub record SessionInfo : Type 0 where
  pub id : Bytes
  pub device_id : Bytes
  pub client_addr : Bytes
  pub device_addr : Bytes
  pub started_at : ℕ
  -- Whole seconds of the program's `float64`.
  pub duration_secs : ℕ
  pub bytes_in : ℕ
  pub bytes_out : ℕ

-- `remote_addr` is what `RemoteAddr().String()` gives for a connection, `seconds_since` the seconds
-- from a time to now.
abbrev pub session_info_of : (ℕ → Bytes) → (ℕ → ℕ) → Session → SessionInfo
session_info_of remote_addr seconds_since s = record {
  id = s.id;
  device_id = s.device_id;
  client_addr = remote_addr s.client_conn;
  device_addr = remote_addr s.device_conn;
  started_at = s.started_at;
  duration_secs = seconds_since s.started_at;
  bytes_in = s.bytes_in;
  bytes_out = s.bytes_out;
}

unfoldable pub list_session_info : (ℕ → Bytes) → (ℕ → ℕ) → Manager → List SessionInfo
unfolding list_sessions
list_session_info remote_addr seconds_since m =
    map (session_info_of remote_addr seconds_since) (list_sessions m)
