-- ===== src/Worlds/Forced.antt =====
-- A session that the HTTP interface ends, through internal/api, internal/session and
-- internal/connection: the request, the bridge that it stops, and the client's handler behind it.
use proxy_rfc.Base.{ℕ, ◌≡◌, subst, true, false, none, some, [], ◌∷◌, ◌++◌, Bytes, codes, arith}
use proxy_rfc.Api.{Request, respond, status_json, Host, is_authorized}
use proxy_rfc.Api.Effects.{closed_both}
use proxy_rfc.Api.Ending.{serve-Terminates}
use proxy_rfc.Api.Handlers.{sessions_path}
use proxy_rfc.Api.Server.{serve}
use proxy_rfc.Bridge.{Reading, Bridge, client_reads, device_reads, wakes, returns, run}
use proxy_rfc.Bridge.HalfClosed.{run_returns}
use proxy_rfc.Config.{Config}
use proxy_rfc.Device.{is_in_session}
use proxy_rfc.Handler.{World, Client, bridge_close, client_finish}
use proxy_rfc.Handler.Endings.{client_finish_lem}
use proxy_rfc.Session.{Session, get_session}
use proxy_rfc.Session.Lifecycle.{IsManaged, IsEntry}
use proxy_rfc.SyncMap.Laws.{load-All}

-- The bridge of a session at the session's connections in a world.
abbrev pub bridge_in : World → Session → Bridge → Bridge
bridge_in w s b = record b { client = w.conns s.client_conn; device = w.conns s.device_conn }

closed_both-client :
    (w : World) (s : Session) → ((closed_both w s).conns s.client_conn).closed ≡ true
closed_both-client w s = ground arith

closed_both-device :
    (w : World) (s : Session) → ((closed_both w s).conns s.device_conn).closed ≡ true
closed_both-device w s = ground arith

own_id :
    (w : World) (id : Bytes) (s : Session)
    → IsManaged w.manager
    → get_session w.manager id ≡ some s
    → s.id ≡ id
unfolding get_session
own_id w id s v f = (load-All (IsEntry w.manager.counter) id w.manager.sessions f v.entries).0

-- In a well formed manager, an authorized DELETE on the path of an active session is answered with
-- 200 and closes both of its connections. The session's bridge, whatever its state, then returns
-- after one read of each of its loops; and behind it the handler on the session's client connection
-- leaves no session under that identifier, and the device free.
pub serve_ends_session :
    (config : Config) (host : Host) (w : World) (r : Request) (id : Bytes) (s : Session)
    (b : Bridge) (now now' : ℕ) (x x' : Reading) (c : Client) (ref : ℕ)
    → IsManaged w.manager
    → get_session w.manager id ≡ some s
    → r.method ≡ codes "DELETE"
    → is_authorized config r ≡ true
    → r.path ≡ sessions_path ++ id
    → c.conn ≡ s.client_conn
    → let w' = closed_both w s in
      let w'' = client_finish (bridge_close w' s) c s ref in
      (serve config host w r ≡ some (w', respond 200 (status_json (codes "terminated"))))
      × ((run
            (bridge_in w' s b)
            (client_reads now x ∷ device_reads now' x' ∷ wakes ∷ returns ∷ [])).returned
          ≡ true)
      × (get_session w''.manager id ≡ none)
      × (is_in_session (w''.devices ref) ≡ false)
serve_ends_session config host w r id s b now now' x x' c ref v f m a p q =
    let w' = closed_both w s in
    let (_, gone, free, _, _, _) = client_finish_lem w' c s ref v q in
    (
      serve-Terminates config host w r id s v f m a p,
      run_returns (bridge_in w' s b) now now' x x' (closed_both-client w s)
          (closed_both-device w s),
      subst (λ key. get_session (client_finish (bridge_close w' s) c s ref).manager key ≡ none)
          (own_id w id s v f) gone,
      free,
    )
