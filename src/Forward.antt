-- ===== src/Forward.antt =====
-- internal/connection/handler.go: what a client sent besides its command, as the buffer that
-- `handleClient` makes of it, and the writes that send it to the device.
use proxy_rfc.Base.{
  Bool, false, not, ◌&&◌, Option, none, some, ◌∷◌, Bytes, is_empty, ◌==◌, if◌then◌else◌,
}
use proxy_rfc.Conn.{Conn, write}
use proxy_rfc.Protocol.{AtCommand}
use proxy_rfc.Rfc2217.{Buffer, parse_commands}
use proxy_rfc.Usrvcom.{UsrVcomConfig, is_usrvcom, parse_usrvcom, to_commands, build_packet}

-- The buffer for the device made from a USR-VCOM packet.
abbrev pub usrvcom_buffer : UsrVcomConfig → Buffer
usrvcom_buffer c = record { commands = to_commands c; raw_data = build_packet c }

abbrev pub valid_buffer : Option UsrVcomConfig → Option Buffer
valid_buffer none = none
valid_buffer (some c) = if c.valid then some (usrvcom_buffer c) else none

-- What is to be forwarded of the data before the command.
unfoldable pub preset_buffer : AtCommand → Option Buffer
preset_buffer c = elim (valid_buffer c.usrvcom) [
  | some b ↦ some b
  | none ↦
      if is_empty c.skipped
      then none
      else if is_usrvcom c.skipped
      then valid_buffer (parse_usrvcom c.skipped)
      else some (parse_commands c.skipped)
]

abbrev pub is_com_port_data : Bytes → Bool
is_com_port_data (a ∷ b ∷ c ∷ _) = a == 0xff && b == 0xfa && c == 0x2c
is_com_port_data _ = false

-- What is made of the data behind the command.
unfoldable pub late_buffer : Bytes → Option Buffer
late_buffer bytes =
    if is_usrvcom bytes
    then valid_buffer (parse_usrvcom bytes)
    else if is_com_port_data bytes
    then some (parse_commands bytes)
    else none

-- `ForwardRFC2217ToDevice`.
abbrev pub forward : Option Buffer → Conn → Conn
forward none conn = conn
forward (some b) conn = if is_empty b.raw_data then conn else (write conn b.raw_data).conn

-- Data behind the command go to the device: as a buffer with commands, or as they are.
abbrev pub has_commands : Option Buffer → Bool
has_commands none = false
has_commands (some b) = not (is_empty b.commands)

unfoldable pub forward_late : Bytes → Conn → Conn
forward_late bytes conn =
    if is_empty bytes
    then conn
    else if has_commands (late_buffer bytes)
    then forward (late_buffer bytes) conn
    else (write conn bytes).conn
