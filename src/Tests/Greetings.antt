-- ===== src/Tests/Greetings.antt =====
-- Connections that begin, command by command.
use proxy_rfc.Base.{
  ℕ, ◌≡◌, refl, true, false, Option, none, some, List, [], ◌∷◌, ◌++◌, Bytes, codes, arith,
}
use proxy_rfc.Conn.{Conn, Stream, edge, bytes}
use proxy_rfc.Dispatch.{Next, Talk, to_device, to_client, gives_up, handle}
use proxy_rfc.Dispatch.Kept.{IsEnd}
use proxy_rfc.Dispatch.Rounds.{handle_ends}
use proxy_rfc.Dispatch.History.{Reaches, IsCarried}
use proxy_rfc.Dispatch.Clients.{handle-IsCarried}
use proxy_rfc.Modem.{new_modem_state}
use proxy_rfc.Protocol.{AtCommand, connect, command, read_at_command}

abbrev open_conn : Conn
open_conn = record { sent = []; closed = false; outcomes = [] }

abbrev clock : ℕ → ℕ → ℕ
clock round n = round

-- A modem that is set up and dials, with a port setting before its first command.
abbrev caller : Stream
caller =
    edge ∷ bytes ((0xff ∷ 0xfa ∷ 0x2c ∷ 2 ∷ 8 ∷ 0xff ∷ 0xf0 ∷ []) ++ codes "ATE0\r\nATDT7\r\nhello")

abbrev dialled : AtCommand
dialled = record {
  cmd = connect;
  param = codes "7";
  skipped = 0xff ∷ 0xfa ∷ 0x2c ∷ 2 ∷ 8 ∷ 0xff ∷ 0xf0 ∷ [];
  usrvcom = none;
}

dials_modem :
    handle 60 30 clock caller open_conn
    ≡ some (
      to_client dialled
          (some (record new_modem_state { echo = false }))
          (record open_conn { sent = codes "\r\nOK\r\n" }),
      bytes (codes "hello"),
    )
unfolding handle proxy_rfc.Dispatch.talk read_at_command proxy_rfc.Protocol.read_loop
    proxy_rfc.Protocol.read_step proxy_rfc.Protocol.after_line proxy_rfc.Protocol.read_line
    proxy_rfc.Protocol.after_command proxy_rfc.Text.trim_space proxy_rfc.Text.trim_while
    proxy_rfc.Text.space_width proxy_rfc.Text.last_space_width proxy_rfc.Protocol.parse_at_command
    proxy_rfc.Text.has_prefix proxy_rfc.Text.to_upper proxy_rfc.Dispatch.dispatch
    proxy_rfc.Dispatch.on_modem proxy_rfc.Dispatch.on_dial proxy_rfc.Base.bytes_eq
    proxy_rfc.Conn.next_is proxy_rfc.Conn.write proxy_rfc.Dispatch.on_modem_dial
    proxy_rfc.Dispatch.on_plain_dial proxy_rfc.Modem.handle_command proxy_rfc.Modem.handle_prefix
    proxy_rfc.Modem.handle_upper proxy_rfc.Modem.write_modem_ok proxy_rfc.Protocol.after_end
    proxy_rfc.Protocol.in_command proxy_rfc.Protocol.is_rfc2217_data proxy_rfc.Protocol.skip_lf
    proxy_rfc.Protocol.take_skipped proxy_rfc.Protocol.write_error proxy_rfc.Protocol.write_ok
    proxy_rfc.Usrvcom.is_usrvcom
dials_modem = refl

handle_ends_example :
    (n : Next) × (rest : Stream) × (handle 60 30 clock caller open_conn ≡ some (n, rest)) × IsEnd n
handle_ends_example = handle_ends 60 clock 30 caller open_conn (ground arith)

handle-IsCarried_example :
    (cs : List AtCommand) × (c : AtCommand) × ((round : ℕ) × (t : Talk) × (s : Stream)
      × (conn : Conn) × Reaches 60 clock 30 caller open_conn cs round t s conn
      × (read_at_command t.timeout (clock round) s ≡ some (command c (bytes (codes "hello")))))
    × IsCarried cs c dialled (some (record new_modem_state { echo = false }))
handle-IsCarried_example = handle-IsCarried 60 clock 30 caller open_conn dials_modem

-- Without a modem command a dial is only acknowledged.
registers_device :
    handle 60 30 clock (bytes (codes "ATDT7\r\nAT+REG=k+meter\r\n")) open_conn
    ≡ some (to_device (codes "k+meter") (record open_conn { sent = codes "OK\r\n" }), [])
unfolding handle proxy_rfc.Dispatch.talk read_at_command proxy_rfc.Protocol.read_loop
    proxy_rfc.Protocol.read_step proxy_rfc.Protocol.after_line proxy_rfc.Protocol.read_line
    proxy_rfc.Protocol.after_command proxy_rfc.Text.trim_space proxy_rfc.Text.trim_while
    proxy_rfc.Text.space_width proxy_rfc.Text.last_space_width proxy_rfc.Protocol.parse_at_command
    proxy_rfc.Text.has_prefix proxy_rfc.Text.to_upper proxy_rfc.Dispatch.dispatch
    proxy_rfc.Dispatch.on_modem proxy_rfc.Dispatch.on_dial proxy_rfc.Base.bytes_eq
    proxy_rfc.Conn.next_is proxy_rfc.Conn.write proxy_rfc.Dispatch.on_modem_dial
    proxy_rfc.Dispatch.on_plain_dial proxy_rfc.Modem.handle_command proxy_rfc.Modem.handle_prefix
    proxy_rfc.Modem.handle_upper proxy_rfc.Modem.write_modem_ok proxy_rfc.Protocol.after_end
    proxy_rfc.Protocol.in_command proxy_rfc.Protocol.is_rfc2217_data proxy_rfc.Protocol.skip_lf
    proxy_rfc.Protocol.take_skipped proxy_rfc.Protocol.write_error proxy_rfc.Protocol.write_ok
    proxy_rfc.Usrvcom.is_usrvcom
registers_device = refl

hangs_up :
    handle 60 30 clock (bytes (codes "AT+")) open_conn
    ≡ some (gives_up (record open_conn { sent = codes "ERROR\r\n" }), [])
unfolding handle proxy_rfc.Dispatch.talk read_at_command proxy_rfc.Protocol.read_loop
    proxy_rfc.Protocol.read_step proxy_rfc.Protocol.after_line proxy_rfc.Protocol.read_line
    proxy_rfc.Protocol.after_command proxy_rfc.Text.trim_space proxy_rfc.Text.trim_while
    proxy_rfc.Text.space_width proxy_rfc.Text.last_space_width proxy_rfc.Protocol.parse_at_command
    proxy_rfc.Text.has_prefix proxy_rfc.Text.to_upper proxy_rfc.Dispatch.dispatch
    proxy_rfc.Dispatch.on_modem proxy_rfc.Dispatch.on_dial proxy_rfc.Base.bytes_eq
    proxy_rfc.Conn.next_is proxy_rfc.Conn.write proxy_rfc.Dispatch.on_modem_dial
    proxy_rfc.Dispatch.on_plain_dial proxy_rfc.Modem.handle_command proxy_rfc.Modem.handle_prefix
    proxy_rfc.Modem.handle_upper proxy_rfc.Modem.write_modem_ok proxy_rfc.Protocol.after_end
    proxy_rfc.Protocol.in_command proxy_rfc.Protocol.is_rfc2217_data proxy_rfc.Protocol.skip_lf
    proxy_rfc.Protocol.take_skipped proxy_rfc.Protocol.write_error proxy_rfc.Protocol.write_ok
    proxy_rfc.Usrvcom.is_usrvcom
hangs_up = refl
