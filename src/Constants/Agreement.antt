-- ===== src/Constants/Agreement.antt =====
-- The bytes that internal/connection writes, in the names of the package of constants.
use proxy_rfc.Base.{
  ℕ, ◌+◌, ◌*◌, ◌/◌, ◌%◌, ◌^◌, ◌≡◌, refl, some, List, [], ◌∷◌, ◌++◌, Bytes, ◌==◌, if◌then◌else◌,
  arith,
}
use mathlib.Core.Option
use proxy_rfc.Constants.{
  iac, sb, se, telnet_byte, com_port_option, ComPort, signature, set_baudrate, set_datasize,
  set_parity, set_stop_size, client_code, server_code, Parity, none, odd, even, mark, space,
  parity_byte, StopBits, one, two, stop_byte,
}
use proxy_rfc.Rfc2217.{Command, build_response}
use proxy_rfc.Usrvcom.{
  is_usrvcom, find_header, decode_packet, parse_usrvcom, put_uint32, to_commands,
  decode_param_parity, decode_param_stop,
}

code_agrees : (c : ComPort) → (client_code c + 100) % 256 ≡ server_code c
unfolding client_code server_code
code_agrees signature = refl
code_agrees c = refl

-- BuildResponse answers each command with the server's code for it.
pub build_response_agrees :
    (c : ComPort) (payload : Bytes)
    → build_response (record { command = client_code c; payload = payload })
      ≡ telnet_byte iac ∷ telnet_byte sb ∷ com_port_option ∷ server_code c ∷ payload
        ++ (telnet_byte iac ∷ telnet_byte se ∷ [])
unfolding build_response telnet_byte client_code server_code
build_response_agrees c payload = rw (code_agrees c) refl

-- The parity that the parameter byte of a USR-VCOM packet names.
abbrev pub parity_of_param : ℕ → Parity
parity_of_param param =
    if (param / 8) % 2 == 0
    then none
    else if (param / 16) % 4 == 0
    then odd
    else if (param / 16) % 4 == 1
    then even
    else if (param / 16) % 4 == 2
    then mark
    else space

abbrev pub stop_of_param : ℕ → StopBits
stop_of_param param = if (param / 4) % 2 == 0 then one else two

parity_agrees :
    (param : ℕ) → (decode_param_parity param + 1) % 256 ≡ parity_byte (parity_of_param param)
unfolding decode_param_parity parity_byte
parity_agrees param = ground arith

stop_agrees : (param : ℕ) → decode_param_stop param ≡ stop_byte (stop_of_param param)
unfolding decode_param_stop stop_byte
stop_agrees param = ground arith

-- The commands for a packet, in the names of the constants.
abbrev pub named_commands : ℕ → ℕ → ℕ → ℕ → List Command
named_commands hi mid lo param =
    record {
      command = client_code set_baudrate;
      payload = put_uint32 (hi * 2 ^ 16 + mid * 2 ^ 8 + lo);
    }
    ∷ record { command = client_code set_datasize; payload = (5 + param % 4) ∷ [] }
    ∷ record {
      command = client_code set_parity;
      payload = parity_byte (parity_of_param param) ∷ [];
    }
    ∷ record { command = client_code set_stop_size; payload = stop_byte (stop_of_param param) ∷ [] }
    ∷ []

parse_usrvcom-head :
    (hi mid lo param sum : ℕ) (rest : Bytes)
    → parse_usrvcom (0x55 ∷ 0xaa ∷ 0x55 ∷ hi ∷ mid ∷ lo ∷ param ∷ sum ∷ rest)
      ≡ decode_packet (0x55 ∷ 0xaa ∷ 0x55 ∷ hi ∷ mid ∷ lo ∷ param ∷ sum ∷ rest)
unfolding parse_usrvcom find_header is_usrvcom
parse_usrvcom-head hi mid lo param sum rest = ground arith

-- A USR-VCOM packet at the head of the data is translated to commands with the codes, the parity
-- and the stop bits that the package of constants gives to the names which the packet means.
pub to_commands-parse_usrvcom :
    (hi mid lo param sum : ℕ) (rest : Bytes)
    → Option.map to_commands
        (parse_usrvcom (0x55 ∷ 0xaa ∷ 0x55 ∷ hi ∷ mid ∷ lo ∷ param ∷ sum ∷ rest))
      ≡ some (named_commands hi mid lo param)
unfolding to_commands decode_packet client_code
to_commands-parse_usrvcom hi mid lo param sum rest =
    rw (parse_usrvcom-head hi mid lo param sum rest, parity_agrees param, stop_agrees param) refl
