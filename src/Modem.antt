-- ===== src/Modem.antt =====
-- internal/connection/modem.go: the emulated modem's answers and its AT commands.
pub mod Cases
pub mod Replies
pub mod Modes
use proxy_rfc.Base.{
  ℕ, Bool, true, false, ◌||◌, List, [], ◌∷◌, ◌++◌, Bytes, codes, bytes_eq, if◌then◌else◌,
}
use proxy_rfc.Conn.{Conn, Written, write}
use proxy_rfc.Text.{has_prefix, to_upper, trim_space}

pub record ModemState : Type 0 where
  pub verbose : Bool
  pub echo : Bool

abbrev pub new_modem_state : ModemState
new_modem_state = record { verbose = true; echo = true }

unfoldable pub write_modem_ok : ModemState → Conn → Written
write_modem_ok m conn = write conn (if m.verbose then codes "\r\nOK\r\n" else codes "0\r")

unfoldable pub write_modem_error : ModemState → Conn → Written
write_modem_error m conn = write conn (if m.verbose then codes "\r\nERROR\r\n" else codes "4\r")

unfoldable pub write_modem_connect : ModemState → Conn → Written
write_modem_connect m conn =
    write conn (if m.verbose then codes "\r\nCONNECT 9600\r\n" else codes "1\r")

unfoldable pub write_modem_no_carrier : ModemState → Conn → Written
write_modem_no_carrier m conn =
    write conn (if m.verbose then codes "\r\nNO CARRIER\r\n" else codes "3\r")

unfoldable pub write_info_response : ModemState → Conn → Bytes → Written
write_info_response m conn info =
    write conn (
      if m.verbose then codes "\r\n" ++ (info ++ codes "\r\n\r\nOK\r\n") else info ++ codes "\r0\r")

-- What `HandleCommand` leaves: the state, the connection, and its result.
pub record Handled : Type 0 where
  pub state : ModemState
  pub conn : Conn
  pub handled : Bool

abbrev pub answered : ModemState → Written → Handled
answered m w = record { state = m; conn = w.conn; handled = true }

-- The commands behind the exact ones: those known by their prefix.
unfoldable pub handle_prefix : ModemState → Conn → Bytes → Handled
handle_prefix m conn upper =
    if has_prefix upper (codes "ATI")
    then answered m (write_info_response m conn (codes "RFC2217-PROXY"))
    else if has_prefix upper (codes "AT+CGMI")
    then answered m (write_info_response m conn (codes "RFC2217-PROXY"))
    else if has_prefix upper (codes "AT+CPIN")
    then answered m (write_info_response m conn (codes "+CPIN: READY"))
    else if has_prefix upper (codes "AT+CSQ")
    then answered m (write_info_response m conn (codes "+CSQ: 31,0"))
    else if has_prefix upper (codes "ATS")
        || has_prefix upper (codes "AT&")
        || has_prefix upper (codes "AT\\")
    then answered m (write_modem_ok m conn)
    else if has_prefix upper (codes "AT+")
    then answered m (write_modem_ok m conn)
    else if has_prefix upper (codes "AT")
    then answered m (write_modem_ok m conn)
    else record { state = m; conn = conn; handled = false }

unfoldable pub handle_upper : ModemState → Conn → Bytes → Handled
handle_upper m conn upper =
    if bytes_eq upper (codes "AT")
    then answered m (write_modem_ok m conn)
    else if bytes_eq upper (codes "ATZ") || bytes_eq upper (codes "ATZ0")
    then answered new_modem_state (write_modem_ok new_modem_state conn)
    else if bytes_eq upper (codes "ATE0")
    then answered (record m { echo = false }) (write_modem_ok m conn)
    else if bytes_eq upper (codes "ATE1")
    then answered (record m { echo = true }) (write_modem_ok m conn)
    else if bytes_eq upper (codes "ATV0")
    then answered (record m { verbose = false }) (write_modem_ok m conn)
    else if bytes_eq upper (codes "ATV1")
    then answered (record m { verbose = true }) (write_modem_ok m conn)
    else if bytes_eq upper (codes "ATH") || bytes_eq upper (codes "ATH0")
    then answered m (write_modem_ok m conn)
    else handle_prefix m conn upper

unfoldable pub handle_command : ModemState → Conn → Bytes → Handled
handle_command m conn cmd_line = handle_upper m conn (to_upper (trim_space cmd_line))
