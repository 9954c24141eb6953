-- ===== src/Api/Page.antt =====
-- internal/api/handlers.go: the dashboard of the web interface, with every byte of its text, and
-- the printing of numbers on it.
use proxy_rfc.Base.{
  ℕ, ◌*◌, ◌/◌, ◌%◌, Bool, true, false, List, [], ◌∷◌, ◌++◌, Bytes, codes, is_empty, ltb,
  if◌then◌else◌,
}
use proxy_rfc.Decimal.{decimal}
use proxy_rfc.Device.{DeviceInfo}
use proxy_rfc.Session.{SessionInfo}
use proxy_rfc.Api.{Host, mask_ip}
use proxy_rfc.Api.Texts.{
  login_button, page_head, devices_label, sessions_label, devices_head, sessions_head,
  terminate_script, page_end,
}

-- Both take natural numbers: the program's counts, durations and sums of bytes are not negative.
unfoldable pub format_duration : ℕ → Bytes
format_duration secs =
    if ltb secs 60
    then decimal secs ++ codes "s"
    else if ltb secs 3600
    then decimal (secs / 60) ++ codes "m " ++ decimal (secs % 60) ++ codes "s"
    else decimal (secs / 3600) ++ codes "h " ++ decimal (secs / 60 % 60) ++ codes "m"

unfoldable pub format_bytes : ℕ → Bytes
format_bytes b =
    if ltb b 1024
    then decimal b ++ codes "B"
    else if ltb b (1024 * 1024)
    then decimal (b / 1024) ++ codes "KB"
    else decimal (b / (1024 * 1024)) ++ codes "MB"

-- An address on the page.
abbrev pub shown_addr : Bool → Bytes → Bytes
shown_addr true addr = addr
shown_addr false addr = codes "<span class=\"masked\">" ++ mask_ip addr ++ codes "</span>"

abbrev pub status_badge : Bool → Bytes
status_badge false = codes "<span class=\"badge badge-green\">idle</span>"
status_badge true = codes "<span class=\"badge badge-yellow\">in session</span>"

unfoldable pub device_row : Host → Bool → DeviceInfo → Bytes
device_row host logged_in d =
    codes "<tr>\n"
    ++ codes "                <td>"
    ++ d.id
    ++ codes "</td>\n"
    ++ codes "                <td>"
    ++ shown_addr logged_in d.remote_addr
    ++ codes "</td>\n"
    ++ codes "                <td>"
    ++ host.format_date_time d.registered_at
    ++ codes "</td>\n"
    ++ codes "                <td>"
    ++ status_badge d.in_session
    ++ codes "</td>\n"
    ++ codes "            </tr>"

abbrev pub device_rows : Host → Bool → List DeviceInfo → Bytes
device_rows host logged_in [] = []
device_rows host logged_in (d ∷ ds) = device_row host logged_in d ++ device_rows host logged_in ds

abbrev pub device_table : Host → Bool → List DeviceInfo → Bytes
device_table host logged_in ds =
    if is_empty ds
    then codes "<tr><td colspan=\"4\" class=\"empty\">No devices connected</td></tr>"
    else device_rows host logged_in ds

abbrev action_head : Bool → Bytes
action_head false = []
action_head true = codes "<th>Actions</th>"

abbrev pub terminate_button : Bool → Bytes → Bytes
terminate_button false id = []
terminate_button true id =
    codes "<td><button class=\"btn-terminate\" onclick=\"terminateSession('"
    ++ id
    ++ codes "')\">Terminate</button></td>"

unfoldable pub session_row : Host → Bool → SessionInfo → Bytes
unfolding format_duration format_bytes
session_row host logged_in s =
    codes "<tr>\n"
    ++ codes "                <td>"
    ++ s.id
    ++ codes "</td>\n"
    ++ codes "                <td>"
    ++ s.device_id
    ++ codes "</td>\n"
    ++ codes "                <td>"
    ++ shown_addr logged_in s.client_addr
    ++ codes "</td>\n"
    ++ codes "                <td>"
    ++ host.format_time s.started_at
    ++ codes "</td>\n"
    ++ codes "                <td>"
    ++ format_duration s.duration_secs
    ++ codes "</td>\n"
    ++ codes "                <td>"
    ++ (0xe2 ∷ 0x86 ∷ 0x93 ∷ [])
    ++ format_bytes s.bytes_in
    ++ codes " "
    ++ (0xe2 ∷ 0x86 ∷ 0x91 ∷ [])
    ++ format_bytes s.bytes_out
    ++ codes "</td>"
    ++ terminate_button logged_in s.id
    ++ codes "</tr>"

abbrev pub session_rows : Host → Bool → List SessionInfo → Bytes
session_rows host logged_in [] = []
session_rows host logged_in (s ∷ ss) =
    session_row host logged_in s ++ session_rows host logged_in ss

abbrev pub session_table : Host → Bool → List SessionInfo → Bytes
session_table host logged_in ss =
    if is_empty ss
    then codes "<tr><td colspan=\""
      ++ (if logged_in then codes "7" else codes "6")
      ++ codes "\" class=\"empty\">No active sessions</td></tr>"
    else session_rows host logged_in ss

abbrev script : Bool → Bytes
script false = []
script true = terminate_script

abbrev pub above_devices : ℕ → ℕ → Bool → Bytes
above_devices devices sessions logged_in =
    page_head
    ++ login_button logged_in
    ++ devices_label
    ++ decimal devices
    ++ sessions_label
    ++ decimal sessions
    ++ devices_head

abbrev pub above_sessions : Bool → Bytes
above_sessions logged_in = sessions_head ++ action_head logged_in ++ codes "</tr>"

abbrev pub below_sessions : Bool → Bytes
below_sessions logged_in = codes "</table>" ++ script logged_in ++ page_end

unfoldable pub dashboard_html : Host → ℕ → ℕ → List DeviceInfo → List SessionInfo → Bool → Bytes
unfolding device_row session_row
dashboard_html host devices sessions ds ss logged_in =
    above_devices devices sessions logged_in
    ++ (device_table host logged_in ds
        ++ (above_sessions logged_in
            ++ (session_table host logged_in ss ++ below_sessions logged_in)))
