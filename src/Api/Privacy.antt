-- ===== src/Api/Privacy.antt =====
-- Who sees the addresses of devices and clients.
use proxy_rfc.Base.{ℕ, suc, ◌≡◌, refl, ap, false, List, [], ◌∷◌, Bytes, length, map, arith}
use proxy_rfc.Config.{Config}
use proxy_rfc.Device.{Devices, Registry, list_info}
use proxy_rfc.Handler.{World}
use proxy_rfc.Session
use proxy_rfc.Session.{Session, SessionInfo, Manager, list_session_info, session_info_of}
use proxy_rfc.Api.{Request, Host, mask_ip, is_logged_in, is_authorized}
use proxy_rfc.Api.Handlers.{mask_device, mask_session, list_devices, list_sessions, dashboard}
use proxy_rfc.Api.Page.{
  device_row, device_rows, device_table, session_row, session_rows, session_table, dashboard_html,
}
use proxy_rfc.Api.Server.{
  Route, to_devices, to_sessions, to_dashboard, route, handle_request, serve, mux,
}

-- The same host with other addresses of connections.
abbrev pub readdress : (ℕ → Bytes) → Host → Host
readdress addrs host = record host { remote_addr = addrs }

-- Two hosts whose addresses have the same masks.
module _ (host : Host) (addrs : ℕ → Bytes)
    (same_mask : (conn : ℕ) → mask_ip (host.remote_addr conn) ≡ mask_ip (addrs conn)) where
  masked_devices :
      (ds : Devices) (reg : Registry)
      → map mask_device (list_info host.remote_addr ds reg)
        ≡ map mask_device (list_info addrs ds reg)
  unfolding list_info
  masked_devices ds [] = refl
  masked_devices ds ((id, ref) ∷ reg) = rw (masked_devices ds reg, same_mask (ds ref).conn) refl

  masked_sessions :
      (ss : List Session)
      → map mask_session (map (session_info_of host.remote_addr host.seconds_since) ss)
        ≡ map mask_session (map (session_info_of addrs host.seconds_since) ss)
  masked_sessions [] = refl
  masked_sessions (s ∷ ss) =
      rw (masked_sessions ss, same_mask s.client_conn, same_mask s.device_conn) refl

  shown_devices :
      (ds : Devices) (reg : Registry)
      → device_rows host false (list_info host.remote_addr ds reg)
        ≡ device_rows (readdress addrs host) false (list_info addrs ds reg)
  unfolding list_info device_row
  shown_devices ds [] = refl
  shown_devices ds ((id, ref) ∷ reg) = rw (shown_devices ds reg, same_mask (ds ref).conn) refl

  shown_sessions :
      (ss : List Session)
      → session_rows host false (map (session_info_of host.remote_addr host.seconds_since) ss)
        ≡ session_rows
            (readdress addrs host)
            false
            (map (session_info_of addrs host.seconds_since) ss)
  unfolding session_row
  shown_sessions [] = refl
  shown_sessions (s ∷ ss) = rw (shown_sessions ss, same_mask s.client_conn) refl

  length-devices :
      (ds : Devices) (reg : Registry)
      → length (list_info host.remote_addr ds reg) ≡ length (list_info addrs ds reg)
  unfolding list_info
  length-devices ds [] = refl
  length-devices ds (e ∷ reg) = ap suc (length-devices ds reg)

  length-sessions :
      (ss : List Session)
      → length (map (session_info_of host.remote_addr host.seconds_since) ss)
        ≡ length (map (session_info_of addrs host.seconds_since) ss)
  length-sessions [] = refl
  length-sessions (s ∷ ss) = ap suc (length-sessions ss)

  device_tables :
      (ds : Devices) (reg : Registry)
      → device_table host false (list_info host.remote_addr ds reg)
        ≡ device_table (readdress addrs host) false (list_info addrs ds reg)
  unfolding list_info
  device_tables ds [] = refl
  device_tables ds (e ∷ reg) = shown_devices ds (e ∷ reg)

  session_tables :
      (ss : List Session)
      → session_table host false (map (session_info_of host.remote_addr host.seconds_since) ss)
        ≡ session_table
            (readdress addrs host)
            false
            (map (session_info_of addrs host.seconds_since) ss)
  session_tables [] = refl
  session_tables (s ∷ ss) = shown_sessions (s ∷ ss)

  module _ (config : Config) (w : World) (r : Request) where
    dashboard-masked :
        is_logged_in config r ≡ false
        → dashboard config host w r ≡ dashboard config (readdress addrs host) w r
    unfolding dashboard dashboard_html list_session_info
    dashboard-masked out =
        rw
          (
            out,
            length-devices w.devices w.registry,
            length-sessions (proxy_rfc.Session.list_sessions w.manager),
            device_tables w.devices w.registry,
            session_tables (proxy_rfc.Session.list_sessions w.manager),
          )
          refl

    list_devices-masked :
        is_authorized config r ≡ false
        → list_devices config host w r ≡ list_devices config (readdress addrs host) w r
    unfolding list_devices
    list_devices-masked out = rw (out, masked_devices w.devices w.registry) refl

    list_sessions-masked :
        is_authorized config r ≡ false
        → list_sessions config host w r ≡ list_sessions config (readdress addrs host) w r
    unfolding list_sessions list_session_info
    list_sessions-masked out =
        rw (out, masked_sessions (proxy_rfc.Session.list_sessions w.manager)) refl

    out_of_both : is_authorized config r ≡ false → is_logged_in config r ≡ false
    unfolding is_authorized
    out_of_both out = ground arith

    handle_request-masked :
        (to : Route)
        → is_authorized config r ≡ false
        → handle_request config host w r to ≡ handle_request config (readdress addrs host) w r to
    unfolding handle_request
    handle_request-masked to_devices out = rw (list_devices-masked out) refl
    handle_request-masked to_sessions out = rw (list_sessions-masked out) refl
    handle_request-masked to_dashboard out = rw (dashboard-masked (out_of_both out)) refl
    handle_request-masked _ out = refl

    -- Where other addresses of connections have the same masks, a request that is not authorized
    -- gets the same answer with them, and a request that is not logged in the same dashboard.
    pub serve_masks :
        (is_authorized config r ≡ false
          → serve config host w r ≡ serve config (readdress addrs host) w r)
        × (is_logged_in config r ≡ false
            → dashboard config host w r ≡ dashboard config (readdress addrs host) w r)
    unfolding serve mux
    serve_masks = ((λ out. rw (handle_request-masked (route r.path) out) refl), dashboard-masked)
