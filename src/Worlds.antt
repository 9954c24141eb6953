-- ===== src/Worlds.antt =====
-- The worlds that the proxy can be in: all orders of the steps of internal/connection/handler.go's
-- handlers, each behind its own connection, of internal/session/bridge.go's bridges, and of the
-- requests of internal/api.
pub mod Slots
pub mod Stops
pub mod Registering
pub mod Rivals
pub mod Standing
pub mod Invariant
pub mod Forced
pub mod Passage
pub mod Arrival
pub mod Meeting
use proxy_rfc.Base.{ℕ, ◌+◌, ◌<◌, ◌^◌, ◌≡◌, Bool, true, false, some, Bytes}
use proxy_rfc.Bridge.{Bridge, Event, apply}
use proxy_rfc.Conn.{Conn, Stream, close}
use proxy_rfc.Dispatch.{Next, conn_of, handle}
use proxy_rfc.SyncMap.{store}
use proxy_rfc.Waiting
use proxy_rfc.Waiting.{Waiting}
use proxy_rfc.Api.{Request, Response, Host}
use proxy_rfc.Api.Server.{serve}
use proxy_rfc.Config.{Config}
use proxy_rfc.Device.{new_registry}
use proxy_rfc.Protocol.{AtCommand, write_ok}
use proxy_rfc.Session.{Session, Manager, new_manager, set_callbacks, get_session, Conns, put_conn}
use proxy_rfc.Device.{Devices, put_device}
use proxy_rfc.Handler.{
  World, wrote, Client, client_refuse, client_start, bridge_close, client_finish, device_exit,
  new_device, add_device, device_dialled, stop_keepalive,
}

-- The world as the program opens, with callbacks set.
abbrev pub first_world : Bool → ℕ → Devices → Conns → World
first_world debug idle_timeout devices conns = record {
  registry = new_registry;
  devices = devices;
  manager = set_callbacks (new_manager debug idle_timeout);
  conns = conns;
  next_ref = 0;
}

-- What `Handle`, or a waiting handler's goroutines, leave of their connection.
abbrev pub heard : World → ℕ → Conn → World
heard w conn conn' = record w { conns = put_conn conn conn' w.conns }

-- The bridge of a session in a world: the session's connections, and its counters.
abbrev pub bridge_at : World → Session → Bridge → Bridge
bridge_at w s b = record b {
  client = w.conns s.client_conn;
  device = w.conns s.device_conn;
  inward = record b.inward { counter = s.bytes_in };
  outward = record b.outward { counter = s.bytes_out };
}

-- What an event of the bridge leaves: the map's entry is the object that the bridge counts in.
unfoldable pub bridged : World → Session → Bridge → World
bridged w s b =
    let counted = record s { bytes_in = b.inward.counter; bytes_out = b.outward.counter } in
    record w {
      conns = put_conn s.device_conn b.device (put_conn s.client_conn b.client w.conns);
      manager = record w.manager { sessions = store s.id counted w.manager.sessions };
    }

-- One step of some handler, or of a goroutine that it has started: the loop of `Handle`, which
-- touches nothing but its own connection, the goroutines of a waiting device, one event of a
-- session's bridge. A client's start asks nothing of the world it is made in, since others may have
-- come between its check and its start; the counter of sessions has a count left.
pub data Step : World → World → Type 0 where
  hears :
      {w : World} (post_timeout init_timeout : ℕ) (since : ℕ → ℕ → ℕ) (s : Stream) (conn : ℕ)
      (n : Next) (rest : Stream)
      → handle post_timeout init_timeout since s (w.conns conn) ≡ some (n, rest)
      → Step w (heard w conn (conn_of n))
  waits :
      {w : World} (x : Waiting) (conn : ℕ) (e : Waiting.Event)
      → Step w (heard w conn (Waiting.apply (record x { conn = w.conns conn }) e).conn)
  moves :
      {w : World} (s : Session) (b : Bridge) (e : Event)
      → get_session w.manager s.id ≡ some s
      → Step w (bridged w s (apply (bridge_at w s b) e))
  -- The deferred Close of `Handle`, and that of an old registration's connection.
  hangs_up : {w : World} (conn : ℕ) → Step w (heard w conn (close (w.conns conn)))
  -- What `handleDevice` does one by one for a registration: the keepalive of an old device object
  -- is stopped, whose connection it then closes (`hangs_up`) and whose identifier it removes
  -- (`exits`); the new device object is made and registered; OK is written.
  stops : {w w' : World} (ref : ℕ) → stop_keepalive w ref ≡ some w' → Step w w'
  adds : {w : World} (now conn : ℕ) (id : Bytes) → Step w (add_device w (new_device id conn now))
  answers : {w : World} (conn : ℕ) → Step w (wrote w conn (write_ok (w.conns conn)))
  exits : {w : World} (id : Bytes) → Step w (device_exit w id)
  dials : {w : World} (conn : ℕ) (c : AtCommand) → Step w (device_dialled w conn c)
  refuses : {w : World} (c : Client) → Step w (client_refuse w c)
  opens :
      {w : World} (now : ℕ) (c : Client) (id : Bytes) (ref : ℕ)
      → w.manager.counter + 1 < 2 ^ 64
      → Step w (client_start now w c id ref).0
  closes : {w : World} (s : Session) → Step w (bridge_close w s)
  clears : {w : World} (c : Client) (s : Session) (ref : ℕ) → Step w (client_finish w c s ref)
  serves :
      {w w' : World} (config : Config) (host : Host) (r : Request) (response : Response)
      → serve config host w r ≡ some (w', response)
      → Step w w'

pub data Reachable (debug : Bool) (idle_timeout : ℕ) (devices : Devices) (conns : Conns)
    : World → Type 0 where
  begins : Reachable debug idle_timeout devices conns (first_world debug idle_timeout devices conns)
  continues :
      {w w' : World}
      → Reachable debug idle_timeout devices conns w
      → Step w w'
      → Reachable debug idle_timeout devices conns w'
