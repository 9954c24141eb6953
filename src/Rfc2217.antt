-- ===== src/Rfc2217.antt =====
-- internal/connection/rfc2217.go: COM-PORT-OPTION subnegotiations, their parser, the server's
-- answers and the query test. A slice is the list of its bytes.
pub mod Framing
pub mod Parser
pub mod Replies
pub mod Scan
use proxy_rfc.Base.{
  ℕ, zero, suc, ◌+◌, ◌*◌, ◌%◌, Bool, false, ◌&&◌, ◌||◌, Option, none, some, List, [], ◌∷◌, ◌++◌,
  Bytes, length, ◌==◌, if◌then◌else◌,
}

abbrev pub iac : ℕ
iac = 0xff

abbrev pub sb : ℕ
sb = 0xfa

abbrev pub se : ℕ
se = 0xf0

abbrev pub com_port_option : ℕ
com_port_option = 0x2c

abbrev pub set_baudrate : ℕ
set_baudrate = 0x01

abbrev pub set_datasize : ℕ
set_datasize = 0x02

abbrev pub set_parity : ℕ
set_parity = 0x03

abbrev pub set_stopsize : ℕ
set_stopsize = 0x04

abbrev pub set_control : ℕ
set_control = 0x05

abbrev pub server_response_offset : ℕ
server_response_offset = 100

pub record Command : Type 0 where
  pub command : ℕ
  pub payload : Bytes

pub record Buffer : Type 0 where
  pub commands : List Command
  pub raw_data : Bytes

abbrev pub prepend : ℕ → Option (Bytes × Bytes) → Option (Bytes × Bytes)
prepend x none = none
prepend x (some (before, after)) = some (x ∷ before, after)

-- The search for IAC SE: the bytes before it, and those behind it.
unfoldable pub find_end : Bytes → Option (Bytes × Bytes)
find_end (x ∷ y ∷ r) = if x == iac && y == se then some ([], r) else prepend x (find_end (y ∷ r))
find_end _ = none

-- `end > start`: a frame with no byte between its marks is not one.
abbrev pub frame_body : Option (Bytes × Bytes) → Option (Command × Bytes)
frame_body (some (c ∷ d, rest)) = some (record { command = c; payload = d }, rest)
frame_body _ = none

-- The frame that begins at the head of the data, and the data behind it.
unfoldable pub frame_at : Bytes → Option (Command × Bytes)
frame_at (a ∷ b ∷ c ∷ r) =
    if a == iac && b == sb && c == com_port_option then frame_body (find_end r) else none
frame_at _ = none

-- The loop of `ParseRFC2217Commands`. The number is how far the loop's index is ahead of the head
-- of the data: 0, or the rest of a jump to `end + 2`.
unfoldable pub parse_from : ℕ → Bytes → List Command
parse_from skip [] = []
parse_from (suc skip) (x ∷ xs) = parse_from skip xs
parse_from zero (x ∷ xs) = elim (frame_at (x ∷ xs)) [
  | none ↦ parse_from zero xs
  | some (cmd, rest) ↦ cmd ∷ parse_from (length cmd.payload + 5) xs
]

unfoldable pub parse_commands : Bytes → Buffer
unfolding parse_from
parse_commands bytes = record { commands = parse_from zero bytes; raw_data = bytes }

unfoldable pub build_response : Command → Bytes
build_response c =
    iac
    ∷ sb
    ∷ com_port_option
    ∷ ((c.command + server_response_offset) % 256)
    ∷ (c.payload ++ (iac ∷ se ∷ []))

-- `binary.BigEndian.Uint32`.
abbrev pub big_endian32 : ℕ → ℕ → ℕ → ℕ → ℕ
big_endian32 a b c d = a * 0x1000000 + b * 0x10000 + c * 0x100 + d

abbrev pub baudrate_query : Bytes → Bool
baudrate_query (a ∷ b ∷ c ∷ d ∷ _) = big_endian32 a b c d == 0
baudrate_query _ = false

abbrev pub value_query : Bytes → Bool
value_query (v ∷ _) = v == 0
value_query [] = false

unfoldable pub is_query : Command → Bool
is_query c =
    if c.command == set_baudrate
    then baudrate_query c.payload
    else if c.command == set_datasize
        || c.command == set_parity
        || c.command == set_stopsize
        || c.command == set_control
    then value_query c.payload
    else false
