-- ===== src/Api/Rows.antt =====
-- What the dashboard shows.
use mathlib.Core.List.{append_assoc, append-nil}
use proxy_rfc.Base.{
  ℕ, ◌≡◌, refl, sym, Bool, true, false, ◌⊎◌, List, [], ◌∷◌, ◌++◌, Bytes, codes, bytes_eq, inl,
  subst, if◌then◌else◌, inr, map, length,
}
use proxy_rfc.Config.{Config}
use proxy_rfc.Device.{Device, Devices, Registry, DeviceInfo, info_of, list_info}
use proxy_rfc.Handler.{World}
use proxy_rfc.Session
use proxy_rfc.Session.{Session, SessionInfo, session_info_of, list_session_info, get_session}
use proxy_rfc.SyncMap.{values}
use proxy_rfc.Api.{Request, respond, html, Host, is_logged_in, mask_ip}
use proxy_rfc.Api.Handlers.{dashboard, device_infos, session_infos}
use proxy_rfc.Api.Page.{
  device_row, device_rows, device_table, session_row, session_rows, session_table, dashboard_html,
  format_bytes, format_duration, shown_addr, status_badge, terminate_button, above_devices,
  above_sessions,
}

-- A text stands in another one.
abbrev pub Shows : Bytes → Bytes → Type 0
Shows text page = (before : Bytes) × (after : Bytes) × (page ≡ before ++ text ++ after)

Shows-refl : (text : Bytes) → Shows text text
Shows-refl text = ([], [], sym (append-nil text))

Shows-before : (text page more : Bytes) → Shows text page → Shows text (page ++ more)
Shows-before text page more (before, after, e) = (before, after ++ more, rw e (simp append_assoc))

Shows-after : (text page more : Bytes) → Shows text page → Shows text (more ++ page)
Shows-after text page more (before, after, e) = (more ++ before, after, rw e (simp append_assoc))

-- The cells of a row, each on a line of its own.
abbrev pub cells : List Bytes → Bytes
cells [] = []
cells (x ∷ xs) = (codes "                <td>" ++ x ++ codes "</td>\n") ++ cells xs

-- An address: whole for who has logged in, and masked for others.
abbrev pub address : Bool → Bytes → Bytes
address logged_in a =
    if logged_in then a else codes "<span class=\"masked\">" ++ mask_ip a ++ codes "</span>"

abbrev pub badge : Bool → Bytes
badge in_session =
    if in_session
    then codes "<span class=\"badge badge-yellow\">in session</span>"
    else codes "<span class=\"badge badge-green\">idle</span>"

abbrev pub device_text : Host → Bool → Device → Bytes
device_text host logged_in d =
    codes "<tr>\n"
    ++ cells (
        d.id
        ∷ address logged_in (host.remote_addr d.conn)
        ∷ host.format_date_time d.registered_at
        ∷ badge d.in_session
        ∷ [])
    ++ codes "            </tr>"

-- The bytes passed on in both directions, behind an arrow down and an arrow up.
abbrev pub traffic : Session → Bytes
traffic s =
    (0xe2 ∷ 0x86 ∷ 0x93 ∷ [])
    ++ format_bytes s.bytes_in
    ++ codes " "
    ++ (0xe2 ∷ 0x86 ∷ 0x91 ∷ [])
    ++ format_bytes s.bytes_out

abbrev pub button : Bool → Bytes → Bytes
button logged_in id =
    if logged_in
    then codes "<td><button class=\"btn-terminate\" onclick=\"terminateSession('"
      ++ id
      ++ codes "')\">Terminate</button></td>"
    else []

abbrev pub session_text : Host → Bool → Session → Bytes
session_text host logged_in s =
    codes "<tr>\n"
    ++ cells (
        s.id
        ∷ s.device_id
        ∷ address logged_in (host.remote_addr s.client_conn)
        ∷ host.format_time s.started_at
        ∷ format_duration (host.seconds_since s.started_at)
        ∷ [])
    ++ (codes "                <td>" ++ traffic s ++ codes "</td>")
    ++ button logged_in s.id
    ++ codes "</tr>"

-- One row for each registration, in the registry's order.
abbrev pub device_lines : Host → Bool → Devices → Registry → Bytes
device_lines host logged_in ds [] = []
device_lines host logged_in ds ((id, ref) ∷ reg) =
    device_text host logged_in (ds ref) ++ device_lines host logged_in ds reg

-- One row for each active session, in the manager's order.
abbrev pub session_lines : Host → Bool → List (Bytes × Session) → Bytes
session_lines host logged_in [] = []
session_lines host logged_in ((id, s) ∷ ss) =
    session_text host logged_in s ++ session_lines host logged_in ss

address_lem : (logged_in : Bool) (a : Bytes) → shown_addr logged_in a ≡ address logged_in a
address_lem false a = refl
address_lem true a = refl

badge_lem : (in_session : Bool) → status_badge in_session ≡ badge in_session
badge_lem false = refl
badge_lem true = refl

button_lem : (logged_in : Bool) (id : Bytes) → terminate_button logged_in id ≡ button logged_in id
button_lem false id = refl
button_lem true id = refl

module _ (host : Host) (logged_in : Bool) where
  device_row_lem :
      (d : Device)
      → device_row host logged_in (info_of host.remote_addr d) ≡ device_text host logged_in d
  unfolding device_row
  device_row_lem d =
      rw (address_lem logged_in (host.remote_addr d.conn), badge_lem d.in_session)
        (simp append_assoc)

  session_row_lem :
      (s : Session)
      → session_row host logged_in (session_info_of host.remote_addr host.seconds_since s)
        ≡ session_text host logged_in s
  unfolding session_row
  session_row_lem s =
      rw (address_lem logged_in (host.remote_addr s.client_conn), button_lem logged_in s.id)
        (simp append_assoc)

  device_rows-lines :
      (ds : Devices) (reg : Registry)
      → device_rows host logged_in (list_info host.remote_addr ds reg)
        ≡ device_lines host logged_in ds reg
  unfolding list_info
  device_rows-lines ds [] = refl
  device_rows-lines ds ((id, ref) ∷ reg) =
      rw (device_row_lem (ds ref), device_rows-lines ds reg) refl

  session_rows-lines :
      (ss : List (Bytes × Session))
      → session_rows host logged_in
          (map (session_info_of host.remote_addr host.seconds_since) (values ss))
        ≡ session_lines host logged_in ss
  session_rows-lines [] = refl
  session_rows-lines ((id, s) ∷ ss) = rw (session_row_lem s, session_rows-lines ss) refl

  device_table-Shows :
      (ds : Devices) (reg : Registry)
      → Shows
          (device_lines host logged_in ds reg)
          (device_table host logged_in (list_info host.remote_addr ds reg))
  unfolding list_info
  device_table-Shows ds [] = ([], _, refl)
  device_table-Shows ds (entry ∷ reg) =
      subst
        (λ text.
          Shows text (device_rows host logged_in (list_info host.remote_addr ds (entry ∷ reg))))
        (device_rows-lines ds (entry ∷ reg)) (Shows-refl _)

  session_table-Shows :
      (ss : List (Bytes × Session))
      → Shows (session_lines host logged_in ss) (
          session_table host logged_in
            (map (session_info_of host.remote_addr host.seconds_since) (values ss)))
  session_table-Shows [] = ([], _, refl)
  session_table-Shows (entry ∷ ss) =
      subst
        (λ text. Shows text (
          session_rows host logged_in
            (map (session_info_of host.remote_addr host.seconds_since) (values (entry ∷ ss)))))
        (session_rows-lines (entry ∷ ss)) (Shows-refl _)

  -- The page shows what its tables show.
  dashboard_html-Shows :
      (text : Bytes) (m n : ℕ) (ds : List DeviceInfo) (ss : List SessionInfo)
      → Shows text (device_table host logged_in ds) ⊎ Shows text (session_table host logged_in ss)
      → Shows text (dashboard_html host m n ds ss logged_in)
  unfolding dashboard_html
  dashboard_html-Shows text m n ds ss (inl h) =
      Shows-after text _ (above_devices m n logged_in)
        (Shows-before text (device_table host logged_in ds) _ h)
  dashboard_html-Shows text m n ds ss (inr h) = Shows-after text _ (above_devices m n logged_in) (
      Shows-after text _ (device_table host logged_in ds) (
        Shows-after text _ (above_sessions logged_in)
          (Shows-before text (session_table host logged_in ss) _ h)))

-- The page for `/`, which any request gets with status 200, shows a row for each registration and a
-- row for each active session. A device's row has its identifier, its address, the time of its
-- registration, and whether it is in a session. A session's row has its identifier, that of its
-- device, the client's address, its start, its duration and the bytes passed on. Whoever has not
-- logged in sees masked addresses; whoever has sees them whole, with a button for each session.
pub dashboard-Shows :
    (config : Config) (host : Host) (w : World) (r : Request)
    → r.path ≡ codes "/"
    → let logged_in = is_logged_in config r in
      (page : Bytes) × (dashboard config host w r ≡ respond 200 (html page))
      × Shows (device_lines host logged_in w.devices w.registry) page
      × Shows (session_lines host logged_in w.manager.sessions) page
unfolding dashboard list_session_info bytes_eq proxy_rfc.Session.list_sessions
dashboard-Shows config host w r p =
    let devices = device_infos host w in
    let sessions = session_infos host w in
    let logged_in = is_logged_in config r in
    let m = length devices in
    let n = length sessions in
    (
      dashboard_html host m n devices sessions logged_in,
      rw p refl,
      dashboard_html-Shows host logged_in _ m n devices sessions
          (inl (device_table-Shows host logged_in w.devices w.registry)),
      dashboard_html-Shows host logged_in _ m n devices sessions
          (inr (session_table-Shows host logged_in w.manager.sessions)),
    )
