-- ===== src/Api/Handlers.antt =====
-- internal/api/handlers.go: one function for each handler. Only the termination of a session
-- changes the world; the others are answers that they read from it.
use proxy_rfc.Base.{
  ℕ, zero, suc, Bool, true, false, not, ◌&&◌, Option, none, some, List, [], ◌∷◌, ◌++◌, Bytes, codes,
  bytes_eq, is_empty, length, map, if◌then◌else◌,
}
use proxy_rfc.Base64.{encode}
use proxy_rfc.Config.{Config}
use proxy_rfc.Device.{DeviceInfo, list_info, count}
use proxy_rfc.Session.{SessionInfo, list_session_info, count_sessions, terminate, Conns}
use proxy_rfc.Handler.{World}
use proxy_rfc.Api.{
  Request, Response, respond, Cookie, keeps, deletes, plain, html, status_json, devices_json,
  sessions_json, stats_json, moved, Host, auth_cookie_name, is_logged_in, is_authorized, mask_ip,
}
use proxy_rfc.Api.Page.{dashboard_html}
use proxy_rfc.Api.Texts.{login_form_html}

-- `http.Error` ends its text with a line end.
abbrev pub error_reply : ℕ → Bytes → Response
error_reply status text = respond status (plain (text ++ codes "\n"))

abbrev pub is_method : Bytes → Request → Bool
is_method method r = bytes_eq r.method method

-- Seven days.
abbrev pub login_cookie : Bytes → Cookie
login_cookie value = record {
  name = auth_cookie_name;
  value = value;
  path = codes "/";
  max_age = keeps 604800;
  http_only = true;
  same_site_strict = true;
}

-- Its Expires, the start of 1970, says the same as its MaxAge.
abbrev logout_cookie : Cookie
logout_cookie = record {
  name = auth_cookie_name;
  value = [];
  path = codes "/";
  max_age = deletes;
  http_only = true;
  same_site_strict = true;
}

-- `http.Redirect` with 303 to the dashboard.
abbrev pub redirect_home : Cookie → Response
redirect_home c = record { status = 303; cookie = some c; body = moved (codes "/") }

abbrev pub invalid_credentials : Bytes
invalid_credentials = codes "<p style=\"color: #f66; text-align: center;\">Invalid credentials</p>"

unfoldable pub post_login : Config → Request → Response
unfolding login_form_html
post_login config r =
    if bytes_eq r.username config.web_user && bytes_eq r.password config.web_pass
    then redirect_home (login_cookie (encode (r.username ++ codes ":" ++ r.password)))
    else respond 401 (html (login_form_html ++ invalid_credentials))

unfoldable pub login : Config → Request → Response
unfolding login_form_html post_login
login config r =
    if is_method (codes "GET") r
    then respond 200 (html login_form_html)
    else if not (is_method (codes "POST") r)
    then error_reply 405 (codes "method not allowed")
    else post_login config r

abbrev pub logout : Response
logout = redirect_home logout_cookie

abbrev pub healthz : Response
healthz = respond 200 (status_json (codes "ok"))

abbrev pub readyz : Response
readyz = respond 200 (status_json (codes "ready"))

abbrev pub mask_device : DeviceInfo → DeviceInfo
mask_device d = record d { remote_addr = mask_ip d.remote_addr }

abbrev pub mask_session : SessionInfo → SessionInfo
mask_session s = record s {
  client_addr = mask_ip s.client_addr;
  device_addr = mask_ip s.device_addr;
}

abbrev pub device_infos : Host → World → List DeviceInfo
device_infos host w = list_info host.remote_addr w.devices w.registry

abbrev pub session_infos : Host → World → List SessionInfo
session_infos host w = list_session_info host.remote_addr host.seconds_since w.manager

unfoldable pub list_devices : Config → Host → World → Request → Response
unfolding is_authorized
list_devices config host w r =
    let devices =
      if not (is_authorized config r)
      then map mask_device (device_infos host w)
      else device_infos host w in
    if not (is_method (codes "GET") r)
    then error_reply 405 (codes "method not allowed")
    else respond 200 (devices_json (length devices) devices)

unfoldable pub list_sessions : Config → Host → World → Request → Response
unfolding is_authorized
list_sessions config host w r =
    let sessions =
      if not (is_authorized config r)
      then map mask_session (session_infos host w)
      else session_infos host w in
    if not (is_method (codes "GET") r)
    then error_reply 405 (codes "method not allowed")
    else respond 200 (sessions_json (length sessions) sessions)

abbrev pub sessions_path : Bytes
sessions_path = codes "/api/v1/sessions/"

-- `path[n:]`; `none` is the panic where the path is shorter.
abbrev pub slice_from : ℕ → Bytes → Option Bytes
slice_from zero path = some path
slice_from (suc n) [] = none
slice_from (suc n) (c ∷ path) = slice_from n path

abbrev terminate_answer : Bool → Response
terminate_answer true = respond 200 (status_json (codes "terminated"))
terminate_answer false = error_reply 404 (codes "session not found")

abbrev terminated : World → Conns × Bool → World × Response
terminated w (conns, ok) = (record w { conns = conns }, terminate_answer ok)

abbrev terminate_id : World → Option Bytes → Option (World × Response)
terminate_id w none = none
terminate_id w (some id) = some (
    if is_empty id
    then (w, error_reply 400 (codes "session id required"))
    else terminated w (terminate w.manager id w.conns))

-- `none` is a panic of the handler.
unfoldable pub terminate_session : Config → World → Request → Option (World × Response)
unfolding is_authorized
terminate_session config w r =
    if not (is_method (codes "DELETE") r)
    then some (w, error_reply 405 (codes "method not allowed"))
    else if not (is_authorized config r)
    then some (w, error_reply 401 (codes "unauthorized"))
    else terminate_id w (slice_from (length sessions_path) r.path)

unfoldable pub stats : World → Request → Response
stats w r =
    if not (is_method (codes "GET") r)
    then error_reply 405 (codes "method not allowed")
    else respond 200 (stats_json (count w.registry) (count_sessions w.manager))

unfoldable pub dashboard : Config → Host → World → Request → Response
unfolding is_logged_in dashboard_html
dashboard config host w r =
    let devices = device_infos host w in
    let sessions = session_infos host w in
    if not (bytes_eq r.path (codes "/"))
    then error_reply 404 (codes "404 page not found")
    else respond 200 (
        html (
          dashboard_html host (length devices) (length sessions) devices sessions
            (is_logged_in config r)))
