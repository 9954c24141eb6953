-- ===== src/Usrvcom.antt =====
-- internal/connection/usrvcom.go: the USR-VCOM baud rate packet (8 bytes, 55 AA 55 and the port's
-- settings), its parser, and its translation to RFC 2217 commands. Bytes are numbers below 256; a
-- mask of the low k bits is `% 2 ^ k`, a shift by k is `/ 2 ^ k`.
pub mod Settings
pub mod Packet
pub mod Texts
use proxy_rfc.Base.{
  ℕ, zero, suc, ◌+◌, ◌*◌, ◌/◌, ◌%◌, ◌^◌, Bool, true, false, ◌&&◌, Option, none, some, List, [], ◌∷◌,
  ◌++◌, Bytes, length, take, ◌==◌, ltb, if◌then◌else◌,
}
use proxy_rfc.Rfc2217.{
  Command, iac, sb, se, com_port_option, set_baudrate, set_datasize, set_parity, set_stopsize,
}

abbrev pub header_len : ℕ
header_len = 3

abbrev pub packet_len : ℕ
packet_len = 8

pub record UsrVcomConfig : Type 0 where
  pub baud_rate : ℕ
  pub data_bits : ℕ
  pub parity : ℕ
  pub stop_bits : ℕ
  pub valid : Bool
  pub raw_data : Bytes

-- `IsUSRVCOM`: the data begin with 55 AA 55.
unfoldable pub is_usrvcom : Bytes → Bool
is_usrvcom (a ∷ b ∷ c ∷ _) = a == 0x55 && b == 0xaa && c == 0x55
is_usrvcom _ = false

-- The search for the header: the data from the first header on that leaves room for a packet.
unfoldable pub find_header : Bytes → Option Bytes
unfolding is_usrvcom
find_header [] = none
find_header (x ∷ xs) =
    if ltb (length (x ∷ xs)) packet_len
    then none
    else if is_usrvcom (x ∷ xs)
    then some (x ∷ xs)
    else find_header xs

-- Bits 5-4 of the parameter byte, where bit 3 enables parity.
abbrev pub parity_of_type : ℕ → ℕ
parity_of_type t = if t == 0 then 1 else if t == 1 then 2 else if t == 2 then 3 else 4

unfoldable pub decode_param_parity : ℕ → ℕ
decode_param_parity param = if (param / 8) % 2 == 0 then 0 else parity_of_type ((param / 16) % 4)

unfoldable pub decode_param_stop : ℕ → ℕ
decode_param_stop param = if (param / 4) % 2 == 0 then 1 else 2

abbrev pub decode_param_data : ℕ → ℕ
decode_param_data param = 5 + param % 4

-- The settings of a packet. The checksum is compared for the log only.
unfoldable pub decode_packet : Bytes → Option UsrVcomConfig
unfolding decode_param_parity decode_param_stop
decode_packet (h0 ∷ h1 ∷ h2 ∷ hi ∷ mid ∷ lo ∷ param ∷ sum ∷ rest) = some (record {
  baud_rate = hi * 2 ^ 16 + mid * 2 ^ 8 + lo;
  data_bits = decode_param_data param;
  parity = decode_param_parity param;
  stop_bits = decode_param_stop param;
  valid = true;
  raw_data = h0 ∷ h1 ∷ h2 ∷ hi ∷ mid ∷ lo ∷ param ∷ sum ∷ [];
})
decode_packet _ = none

unfoldable pub parse_found : Option Bytes → Option UsrVcomConfig
unfolding decode_packet
parse_found none = none
parse_found (some packet) = decode_packet packet

unfoldable pub parse_usrvcom : Bytes → Option UsrVcomConfig
unfolding find_header parse_found
parse_usrvcom bytes =
    if ltb (length bytes) packet_len then none else parse_found (find_header bytes)

-- `binary.BigEndian.PutUint32`.
abbrev pub put_uint32 : ℕ → Bytes
put_uint32 v = ((v / 2 ^ 24) % 256) ∷ ((v / 2 ^ 16) % 256) ∷ ((v / 2 ^ 8) % 256) ∷ (v % 256) ∷ []

unfoldable pub to_commands : UsrVcomConfig → List Command
to_commands c =
    if c.valid
    then record { command = set_baudrate; payload = put_uint32 c.baud_rate }
      ∷ record { command = set_datasize; payload = c.data_bits ∷ [] }
      ∷ record { command = set_parity; payload = ((c.parity + 1) % 256) ∷ [] }
      ∷ record { command = set_stopsize; payload = c.stop_bits ∷ [] }
      ∷ []
    else []

-- The loop over the commands: `packet` is what has been built so far.
unfoldable pub append_frames : Bytes → List Command → Bytes
append_frames packet [] = packet
append_frames packet (c ∷ cs) =
    append_frames
      (((packet ++ (iac ∷ sb ∷ com_port_option ∷ c.command ∷ [])) ++ c.payload) ++ (iac ∷ se ∷ []))
      cs

unfoldable pub build_packet : UsrVcomConfig → Bytes
unfolding to_commands append_frames
build_packet c = append_frames [] (to_commands c)
