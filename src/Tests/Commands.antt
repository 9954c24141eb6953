-- ===== src/Tests/Commands.antt =====
-- AT commands: the reader and the emulated modem, at concrete lines.
use proxy_rfc.Base.{◌≡◌, ◌↔◌, refl, true, false, none, some, [], ◌∷◌, ◌++◌, codes, bytes_eq, arith}
use proxy_rfc.Conn.{Conn, Stream, byte, edge, pause, bytes}
use proxy_rfc.Modem.{ModemState, new_modem_state, Handled, handle_command}
use proxy_rfc.Modem.Cases.{handle_command-ignored}
use proxy_rfc.Modem.Replies.{IsAnswered, handle_command-IsAnswered}
use proxy_rfc.Modem.Modes.{handle_command-state}
use proxy_rfc.Protocol.{
  AtCommand, ReadResult, command, failed, net_timeout, read_failed, reg, connect, dt, modem,
  at_command, parse_at_command, read_line, read_at_command, read_plain_at_command,
}
use proxy_rfc.Protocol.LineBytes.{stream_bytes, Conserves, read_line-Conserves}
use proxy_rfc.Protocol.LineShape.{IsAtLine, read_line_shape}
use proxy_rfc.Protocol.Commands.{IsParsed, parse_at_command-none, parse_at_command-IsParsed}
use proxy_rfc.Protocol.Spins.{IsCommandOrEnd, packet_of, read_plain_at_command_spins}
use proxy_rfc.Text.{has_prefix, to_upper, trim_space}
use proxy_rfc.Usrvcom.{UsrVcomConfig}

-- A USR-VCOM packet that comes alone, a pause, and a connection command.
abbrev fed : Stream
fed =
    edge ∷ bytes (0x55 ∷ 0xaa ∷ 0x55 ∷ 0x00 ∷ 0x25 ∷ 0x80 ∷ 0x03 ∷ 0xa8 ∷ [])
    ++ (pause ∷ edge ∷ bytes (codes "AT+CONNECT=k+dev\r\n"))

abbrev setting : UsrVcomConfig
setting = record {
  baud_rate = 9600;
  data_bits = 8;
  parity = 0;
  stop_bits = 1;
  valid = true;
  raw_data = 0x55 ∷ 0xaa ∷ 0x55 ∷ 0x00 ∷ 0x25 ∷ 0x80 ∷ 0x03 ∷ 0xa8 ∷ [];
}

reads_fed :
    read_at_command 30 (λ n. n) fed
    ≡ some (
        command
          (record { cmd = connect; param = codes "k+dev"; skipped = []; usrvcom = some setting })
          [])
unfolding read_at_command proxy_rfc.Protocol.read_loop proxy_rfc.Protocol.read_step
    proxy_rfc.Protocol.after_line read_line proxy_rfc.Protocol.after_timeout
    proxy_rfc.Protocol.take_unended proxy_rfc.Usrvcom.is_usrvcom proxy_rfc.Usrvcom.parse_usrvcom
    proxy_rfc.Protocol.after_command trim_space proxy_rfc.Text.trim_while proxy_rfc.Text.space_width
    proxy_rfc.Text.last_space_width parse_at_command has_prefix proxy_rfc.Protocol.take_skipped
reads_fed = refl

-- A line whose end is not there when the deadline passes is lost: the rest of it is no command.
abbrev broken : Stream
broken = bytes (codes "AT+REG=") ++ (pause ∷ bytes (codes "dev\r\nAT\r"))

loses_broken :
    read_at_command 30 (λ n. n) broken
    ≡ some (
        command
          (record { cmd = modem; param = codes "AT"; skipped = codes "dev"; usrvcom = none })
          [])
unfolding read_at_command proxy_rfc.Protocol.read_loop proxy_rfc.Protocol.read_step
    proxy_rfc.Protocol.after_line read_line proxy_rfc.Protocol.after_timeout
    proxy_rfc.Protocol.after_command trim_space proxy_rfc.Text.trim_while
    proxy_rfc.Protocol.take_skipped proxy_rfc.Usrvcom.is_usrvcom proxy_rfc.Protocol.is_rfc2217_data
    proxy_rfc.Text.space_width proxy_rfc.Text.last_space_width parse_at_command has_prefix to_upper
loses_broken = refl

abbrev noisy : Stream
noisy = bytes (codes "zzAT+CSQ\r") ++ (edge ∷ bytes (codes "\nrest"))

read_line-Conserves_run : Conserves (stream_bytes noisy) (read_line false [] [] noisy)
read_line-Conserves_run = read_line-Conserves noisy

read_line_shape_run : IsAtLine (read_line false [] [] noisy).line
read_line_shape_run = read_line_shape noisy

parse_at_command-none_run :
    (parse_at_command (codes "+++") ≡ none)
    ↔ (has_prefix (to_upper (codes "+++")) (codes "AT") ≡ false)
parse_at_command-none_run = parse_at_command-none (codes "+++")

parse_at_command-IsParsed_run : IsParsed (codes "ATZ") (at_command modem (codes "ATZ"))
unfolding parse_at_command has_prefix to_upper
parse_at_command-IsParsed_run = parse_at_command-IsParsed (codes "ATZ") refl

dials : parse_at_command (codes "atd+123") ≡ some (at_command dt (codes "+123"))
unfolding parse_at_command has_prefix to_upper
dials = refl

abbrev open_conn : Conn
open_conn = record { sent = []; closed = false; outcomes = [] }

abbrev numeric : ModemState
numeric = record { verbose = false; echo = true }

asks_signal : handle_command numeric open_conn (codes "at+csq") ≡ record {
  state = numeric;
  conn = record open_conn { sent = codes "+CSQ: 31,0\r0\r" };
  handled = true;
}
unfolding handle_command proxy_rfc.Modem.handle_upper bytes_eq to_upper trim_space
    proxy_rfc.Text.trim_while proxy_rfc.Text.space_width proxy_rfc.Text.last_space_width
    proxy_rfc.Modem.handle_prefix has_prefix proxy_rfc.Modem.write_info_response
    proxy_rfc.Conn.write
asks_signal = refl

handle_command-IsAnswered_example :
    IsAnswered false open_conn (handle_command numeric open_conn (codes "at+csq"))
unfolding has_prefix to_upper trim_space proxy_rfc.Text.trim_while proxy_rfc.Text.space_width
    proxy_rfc.Text.last_space_width bytes_eq
handle_command-IsAnswered_example =
    handle_command-IsAnswered numeric open_conn (codes "at+csq") refl

handle_command-ignored_run :
    handle_command numeric open_conn (codes "+++")
    ≡ record { state = numeric; conn = open_conn; handled = false }
unfolding has_prefix to_upper trim_space proxy_rfc.Text.trim_while proxy_rfc.Text.space_width
    proxy_rfc.Text.last_space_width
handle_command-ignored_run = handle_command-ignored numeric open_conn (codes "+++") refl

handle_command-state_run :
    ((handle_command numeric open_conn (codes "ATE0")).state.verbose ≡ false)
    × ((handle_command numeric open_conn (codes "ATE0")).state.echo ≡ false)
unfolding bytes_eq to_upper trim_space proxy_rfc.Text.trim_while proxy_rfc.Text.space_width
    proxy_rfc.Text.last_space_width
handle_command-state_run = handle_command-state numeric open_conn (codes "ATE0")

-- A USR-VCOM packet and two reads that time out.
abbrev silent : Stream
silent = pause ∷ pause ∷ []

read_plain_at_command_spins_example :
    ((r : ReadResult) × (read_plain_at_command
          (λ n. n)
          (bytes (packet_of 0x00 0x25 0x80 0x03 0xa8) ++ (pause ∷ silent))
        ≡ some r)
      × IsCommandOrEnd r)
    × (read_plain_at_command (λ n. n) (pause ∷ silent) ≡ some (failed net_timeout silent))
read_plain_at_command_spins_example =
    read_plain_at_command_spins (λ n. n) 0x00 0x25 0x80 0x03 0xa8 silent
      (
        (refl, λ q. omega arith),
        (
          (refl, λ q. omega arith),
          ((refl, λ q. omega arith), ((refl, λ q. omega arith), ((refl, λ q. omega arith), tt))),
        ),
      )
