-- ===== src/Usrvcom/Packet.antt =====
-- The RFC 2217 packet that usrvcom.go builds from a port setting, read back by rfc2217.go.
use mathlib.Core.List.{append-nil, append_assoc}
use proxy_rfc.Base.{
  ℕ, ◌+◌, ◌^◌, ◌%◌, ◌/◌, ◌<◌, ◌≡◌, ◌≢◌, ◌↔◌, sym, ap, subst, ◌∙◌, false, none, some, List, [], ◌∷◌,
  ◌++◌, map, Bytes, IsBytes, arith, ◌==◌, All,
}
use proxy_rfc.Rfc2217.{Command, find_end, is_query, parse_commands, set_baudrate}
use proxy_rfc.Rfc2217.Framing.{IsPlain}
use proxy_rfc.Rfc2217.Parser.{frames, FramedIn, parse_commands-frames, parse_commands-FramedIn}
use proxy_rfc.Usrvcom.{
  UsrVcomConfig, put_uint32, to_commands, append_frames, build_packet, parse_usrvcom,
}
use proxy_rfc.Usrvcom.Settings.{IsPortSetting, parse_usrvcom-IsPortSetting}

append_frames-frames :
    (cs : List Command) (packet : Bytes) → append_frames packet cs ≡ packet ++ frames cs
unfolding append_frames
append_frames-frames [] packet = sym (append-nil packet)
append_frames-frames (c ∷ cs) packet = append_frames-frames cs _ ∙ simp append_assoc

pub build_packet-frames : (c : UsrVcomConfig) → build_packet c ≡ frames (to_commands c)
unfolding build_packet
build_packet-frames c = append_frames-frames (to_commands c) []

-- The two bytes of IAC SE do not meet in the four bytes of the baud rate.
abbrev pub HasNoMark : ℕ → Type 0
HasNoMark baud = (baud / 2 ^ 8 ≢ 0xfff0) × (baud % 2 ^ 16 ≢ 0xfff0)

baudrate-IsPlain :
    (baud : ℕ) → baud < 2 ^ 24 → HasNoMark baud → find_end (set_baudrate ∷ put_uint32 baud) ≡ none
unfolding find_end
baudrate-IsPlain baud h free = ground arith

baudrate-HasNoMark :
    (baud : ℕ) → baud < 2 ^ 24 → find_end (set_baudrate ∷ put_uint32 baud) ≡ none → HasNoMark baud
unfolding find_end
baudrate-HasNoMark baud h plain = (ground arith, ground arith)

value_IsPlain : (code value : ℕ) → code < 0xff → find_end (code ∷ value ∷ []) ≡ none
unfolding find_end
value_IsPlain code value h = ground arith

to_commands-IsPlain :
    (c : UsrVcomConfig) → IsPortSetting c → HasNoMark c.baud_rate → All IsPlain (to_commands c)
unfolding to_commands
to_commands-IsPlain c s free = rw s.is_valid (
  baudrate-IsPlain c.baud_rate s.baud_24_bits free,
  (
    value_IsPlain 2 c.data_bits (omega arith),
    (
      value_IsPlain 3 ((c.parity + 1) % 256) (omega arith),
      (value_IsPlain 4 c.stop_bits (omega arith), tt),
    ),
  ),
)

frames_read_back : (cs : List Command) → All IsPlain cs → (parse_commands (frames cs)).commands ≡ cs
unfolding parse_commands
frames_read_back cs h =
    ap (λ b. (parse_commands b).commands) (sym (append-nil (frames cs)))
    ∙ parse_commands-frames cs [] h
    ∙ append-nil cs

first_IsPlain :
    (c : UsrVcomConfig)
    → IsPortSetting c
    → All (FramedIn (build_packet c)) (to_commands c)
    → find_end (set_baudrate ∷ put_uint32 c.baud_rate) ≡ none
unfolding to_commands
first_IsPlain c s h = (rw s.is_valid at h).0.0

-- The packet for a port setting in range is read back as the commands that it was built from
-- exactly when no byte pair FF F0 stands in the baud rate: the builder does not double IAC bytes.
pub parse_commands-build_packet :
    (c : UsrVcomConfig)
    → IsPortSetting c
    → ((parse_commands (build_packet c)).commands ≡ to_commands c) ↔ HasNoMark c.baud_rate
parse_commands-build_packet c s = (
  λ e. baudrate-HasNoMark c.baud_rate s.baud_24_bits (
      first_IsPlain c s
        (subst (All (FramedIn (build_packet c))) e (parse_commands-FramedIn (build_packet c)))),
  λ free.
      rw (build_packet-frames c) (frames_read_back (to_commands c) (to_commands-IsPlain c s free)),
)

-- The packet built from a USR-VCOM packet that was parsed from bytes is read back as four commands
-- that set the baud rate, data bits, parity and stop bits, unless FF F0 stands in the baud rate.
pub build_packet_lem :
    (bytes : Bytes) {c : UsrVcomConfig}
    → IsBytes bytes
    → parse_usrvcom bytes ≡ some c
    → HasNoMark c.baud_rate
    → (parse_commands (build_packet c)).commands
      ≡ record {
        command = 1;
        payload =
            0 ∷ (c.baud_rate / 2 ^ 16) ∷ ((c.baud_rate / 2 ^ 8) % 256) ∷ (c.baud_rate % 256) ∷ [];
      }
        ∷ record { command = 2; payload = c.data_bits ∷ [] }
        ∷ record { command = 3; payload = (c.parity + 1) ∷ [] }
        ∷ record { command = 4; payload = c.stop_bits ∷ [] }
        ∷ []
unfolding to_commands
build_packet_lem bytes {c} b e free =
    let s = parse_usrvcom-IsPortSetting bytes b e in
    (parse_commands-build_packet c s).1 free ∙ rw s.is_valid (ground arith)

-- Of the commands for a port setting in range only the baud rate's can be read as a query, and it
-- is one exactly at rate 0.
pub is_query-to_commands :
    (c : UsrVcomConfig)
    → IsPortSetting c
    → map is_query (to_commands c) ≡ (c.baud_rate == 0) ∷ false ∷ false ∷ false ∷ []
unfolding to_commands is_query
is_query-to_commands c s = rw s.is_valid (ground arith)
