-- ===== src/Tests/Wire.antt =====
-- RFC 2217 and USR-VCOM data, written out.
use proxy_rfc.Base.{◌≡◌, ◌↔◌, refl, true, false, some, [], ◌∷◌, ◌++◌, Bytes, codes, All, map, arith}
use proxy_rfc.Rfc2217.{Command, find_end, is_query, parse_commands, build_response}
use proxy_rfc.Rfc2217.Framing.{frame, IsPlain}
use proxy_rfc.Rfc2217.Parser.{
  frames, FramedIn, parse_commands-FramedIn, parse_commands-frames, parse_commands-frame,
  parse_commands-build_response,
}
use proxy_rfc.Rfc2217.Scan.{Scan, parse_commands_iff}
use proxy_rfc.Usrvcom.{UsrVcomConfig, parse_usrvcom, to_commands, build_packet}
use proxy_rfc.Usrvcom.Settings.{
  IsPortSetting, AtFirstHeader, parse_usrvcom-AtFirstHeader, parse_usrvcom-IsPortSetting,
}
use proxy_rfc.Usrvcom.Packet.{
  HasNoMark, parse_commands-build_packet, build_packet_lem, is_query-to_commands,
}

abbrev baud_9600 : Command
baud_9600 = record { command = 1; payload = 0 ∷ 0 ∷ 0x25 ∷ 0x80 ∷ [] }

abbrev eight_bits : Command
eight_bits = record { command = 2; payload = 8 ∷ [] }

-- Two commands on the wire, and text around them.
abbrev wire : Bytes
wire = codes "x" ++ (frames (baud_9600 ∷ eight_bits ∷ []) ++ codes "AT\r")

parses_wire : (parse_commands wire).commands ≡ baud_9600 ∷ eight_bits ∷ []
unfolding parse_commands proxy_rfc.Rfc2217.frame_at find_end
parses_wire = refl

parse_commands-FramedIn_run : All (FramedIn wire) (parse_commands wire).commands
parse_commands-FramedIn_run = parse_commands-FramedIn wire

parse_commands-frames_run :
    (parse_commands (frames (baud_9600 ∷ eight_bits ∷ []) ++ codes "AT\r")).commands
    ≡ (baud_9600 ∷ eight_bits ∷ []) ++ (parse_commands (codes "AT\r")).commands
unfolding find_end
parse_commands-frames_run =
    parse_commands-frames (baud_9600 ∷ eight_bits ∷ []) (codes "AT\r") (refl, (refl, tt))

parse_commands-frame_run :
    ((parse_commands (frame baud_9600)).commands ≡ baud_9600 ∷ []) ↔ IsPlain baud_9600
parse_commands-frame_run = parse_commands-frame baud_9600

parse_commands-build_response_run :
    (parse_commands (build_response baud_9600)).commands ≡ record baud_9600 { command = 101 } ∷ []
unfolding find_end
parse_commands-build_response_run = parse_commands-build_response baud_9600 (omega arith) refl

-- 9600 baud, 8 data bits, no parity, 1 stop bit; behind two other bytes.
abbrev packet_9600 : Bytes
packet_9600 = 0x55 ∷ 0xaa ∷ 0x55 ∷ 0x00 ∷ 0x25 ∷ 0x80 ∷ 0x03 ∷ 0xa8 ∷ []

abbrev with_9600 : Bytes
with_9600 = 0x01 ∷ 0x55 ∷ packet_9600

abbrev setting_9600 : UsrVcomConfig
setting_9600 = record {
  baud_rate = 9600;
  data_bits = 8;
  parity = 0;
  stop_bits = 1;
  valid = true;
  raw_data = packet_9600;
}

parses_9600 : parse_usrvcom with_9600 ≡ some setting_9600
unfolding parse_usrvcom
parses_9600 = refl

parse_usrvcom-AtFirstHeader_example : AtFirstHeader with_9600 (parse_usrvcom with_9600)
parse_usrvcom-AtFirstHeader_example = parse_usrvcom-AtFirstHeader with_9600

parse_usrvcom-IsPortSetting_run : IsPortSetting setting_9600
parse_usrvcom-IsPortSetting_run = parse_usrvcom-IsPortSetting with_9600 (ground arith) parses_9600

parse_commands-build_packet_run :
    ((parse_commands (build_packet setting_9600)).commands ≡ to_commands setting_9600)
    ↔ HasNoMark 9600
parse_commands-build_packet_run =
    parse_commands-build_packet setting_9600
      (parse_usrvcom-IsPortSetting with_9600 (ground arith) parses_9600)

build_packet_lem_run :
    (parse_commands (build_packet setting_9600)).commands
    ≡ baud_9600
      ∷ eight_bits
      ∷ record { command = 3; payload = 1 ∷ [] }
      ∷ record { command = 4; payload = 1 ∷ [] }
      ∷ []
build_packet_lem_run =
    build_packet_lem with_9600 (ground arith) parses_9600 (ground arith, ground arith)

is_query-to_commands_run :
    map is_query (to_commands setting_9600) ≡ false ∷ false ∷ false ∷ false ∷ []
is_query-to_commands_run =
    is_query-to_commands setting_9600
      (parse_usrvcom-IsPortSetting with_9600 (ground arith) parses_9600)

-- At 65520 baud the frame of the baud rate ends in its middle and the command comes out cut.
abbrev setting_65520 : UsrVcomConfig
setting_65520 = record setting_9600 { baud_rate = 65520 }

cuts_65520 :
    (parse_commands (build_packet setting_65520)).commands
    ≡ record { command = 1; payload = 0 ∷ 0 ∷ [] }
      ∷ eight_bits
      ∷ record { command = 3; payload = 1 ∷ [] }
      ∷ record { command = 4; payload = 1 ∷ [] }
      ∷ []
unfolding parse_commands build_packet proxy_rfc.Rfc2217.frame_at find_end
cuts_65520 = refl

parse_commands_iff_example :
    ((parse_commands wire).commands ≡ baud_9600 ∷ eight_bits ∷ [])
    ↔ Scan wire (baud_9600 ∷ eight_bits ∷ [])
parse_commands_iff_example = parse_commands_iff wire (baud_9600 ∷ eight_bits ∷ [])
