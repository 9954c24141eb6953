-- ===== src/Api/Server.antt =====
-- internal/api/server.go: the routes that NewServer gives to the mux of net/http, with what that
-- mux does first: a path that is not clean is redirected. A request's path has no percent-encoding
-- here, and requests by CONNECT or for `*`, which take another way in net/http, are left out.
use proxy_rfc.Base.{
  ℕ, Bool, false, ◌||◌, Option, some, List, [], ◌∷◌, ◌++◌, Bytes, codes, bytes_eq, is_empty, ◌==◌,
  if◌then◌else◌,
}
use mathlib.Core.List.{reverse}
use proxy_rfc.Config.{Config}
use proxy_rfc.Handler.{World}
use proxy_rfc.Text.{has_prefix}
use proxy_rfc.Api.{Request, Response, respond, moved, Host}
use proxy_rfc.Api.Handlers.{
  login, logout, healthz, readyz, list_devices, list_sessions, sessions_path, terminate_session,
  stats, dashboard,
}

abbrev pub add_first : ℕ → List Bytes → List Bytes
add_first c [] = (c ∷ []) ∷ []
add_first c (s ∷ ss) = (c ∷ s) ∷ ss

-- The parts of a path between its slashes.
unfoldable pub path_segments : Bytes → List Bytes
path_segments [] = [] ∷ []
path_segments (c ∷ p) =
    let rest = path_segments p in if c == b'/' then [] ∷ rest else add_first c rest

abbrev pub drop_first : List Bytes → List Bytes
drop_first [] = []
drop_first (s ∷ ss) = ss

-- `path.Clean` of a rooted path: empty parts and "." go, and ".." goes with the part before it. The
-- parts that stay are held last first.
abbrev pub next_kept : List Bytes → Bytes → List Bytes
next_kept kept s =
    if is_empty s || bytes_eq s (codes ".")
    then kept
    else if bytes_eq s (codes "..")
    then drop_first kept
    else s ∷ kept

unfoldable pub clean_segments : List Bytes → List Bytes → List Bytes
clean_segments kept [] = reverse kept
clean_segments kept (s ∷ ss) = clean_segments (next_kept kept s) ss

abbrev pub rooted : List Bytes → Bytes
rooted [] = []
rooted (s ∷ ss) = (b'/' ∷ s) ++ rooted ss

unfoldable pub ends_in_slash : Bytes → Bool
ends_in_slash [] = false
ends_in_slash (c ∷ []) = c == b'/'
ends_in_slash (c ∷ d ∷ p) = ends_in_slash (d ∷ p)

-- The mux's own `cleanPath`, which keeps a slash at the end.
unfoldable pub clean_path : Bytes → Bytes
unfolding path_segments clean_segments ends_in_slash
clean_path p =
    let clean = rooted (clean_segments [] (path_segments p)) in
    if is_empty clean then codes "/" else if ends_in_slash p then clean ++ codes "/" else clean

abbrev unchanged : World → Response → Option (World × Response)
unchanged w response = some (w, response)

-- The patterns of the mux, by their handlers.
pub data Route : Type 0 where
  to_healthz to_readyz to_devices to_sessions to_session to_stats to_login to_logout to_dashboard :
      Route

-- The pattern that a clean path matches: an exact one before the longest prefix.
unfoldable pub route : Bytes → Route
unfolding has_prefix
route path =
    if bytes_eq path (codes "/healthz")
    then to_healthz
    else if bytes_eq path (codes "/readyz")
    then to_readyz
    else if bytes_eq path (codes "/api/v1/devices")
    then to_devices
    else if bytes_eq path (codes "/api/v1/sessions")
    then to_sessions
    else if has_prefix path sessions_path
    then to_session
    else if bytes_eq path (codes "/api/v1/stats")
    then to_stats
    else if bytes_eq path (codes "/login")
    then to_login
    else if bytes_eq path (codes "/logout")
    then to_logout
    else to_dashboard

-- The handler of each pattern.
unfoldable pub handle_request : Config → Host → World → Request → Route → Option (World × Response)
unfolding login list_devices list_sessions terminate_session stats dashboard
handle_request config host w r to_healthz = unchanged w healthz
handle_request config host w r to_readyz = unchanged w readyz
handle_request config host w r to_devices = unchanged w (list_devices config host w r)
handle_request config host w r to_sessions = unchanged w (list_sessions config host w r)
handle_request config host w r to_session = terminate_session config w r
handle_request config host w r to_stats = unchanged w (stats w r)
handle_request config host w r to_login = unchanged w (login config r)
handle_request config host w r to_logout = unchanged w logout
handle_request config host w r to_dashboard = unchanged w (dashboard config host w r)

-- `ServeHTTP` of net/http's mux with these routes: it redirects a path that is not clean and hands
-- any other request to the handler of its pattern.
unfoldable pub mux : Config → Host → World → Request → Option (World × Response)
unfolding route handle_request clean_path
mux config host w r =
    if bytes_eq (clean_path r.path) r.path
    then handle_request config host w r (route r.path)
    else unchanged w (respond 301 (moved (clean_path r.path)))

-- The server's handler, `logMiddleware` around the mux: it writes the request to the log and leaves
-- the answer as it is. `none` is a panic of a handler.
unfoldable pub serve : Config → Host → World → Request → Option (World × Response)
unfolding mux
serve config host w r = mux config host w r
