-- ===== src/Usrvcom/Texts.antt =====
-- internal/connection/usrvcom.go: the texts of a port setting for the log, and SendToDevice.
use proxy_rfc.Base.{
  ℕ, ◌+◌, ◌≤◌, ◌≡◌, refl, ◌∙◌, sym, true, false, not, Option, none, some, [], ◌∷◌, ◌++◌, Bytes,
  codes, is_empty, length, ◌==◌, if◌then◌else◌, arith,
}
use proxy_rfc.Conn.{Conn, Written, write}
use proxy_rfc.Conn.Open.{IsOpen, write_open_lem}
use proxy_rfc.Decimal.{decimal, decimal_small}
use proxy_rfc.Usrvcom.{UsrVcomConfig, append_frames, build_packet, to_commands}
use proxy_rfc.Usrvcom.Settings.{IsPortSetting}

unfoldable pub parity_string : UsrVcomConfig → Bytes
parity_string c =
    if c.parity == 0
    then codes "None"
    else if c.parity == 1
    then codes "Odd"
    else if c.parity == 2
    then codes "Even"
    else if c.parity == 3
    then codes "Mark"
    else if c.parity == 4
    then codes "Space"
    else codes "Unknown(" ++ decimal c.parity ++ codes ")"

-- The letter of a parity, `?` outside of the table.
abbrev parity_char : ℕ → ℕ
parity_char p =
    if p == 0
    then b'N'
    else if p == 1
    then b'O'
    else if p == 2
    then b'E'
    else if p == 3
    then b'M'
    else if p == 4
    then b'S'
    else b'?'

-- `ModeString`, as in "8N1".
unfoldable pub mode_string : UsrVcomConfig → Bytes
mode_string c = decimal c.data_bits ++ (parity_char c.parity ∷ decimal c.stop_bits)

-- `String`.
unfoldable pub config_string : UsrVcomConfig → Bytes
unfolding mode_string
config_string c =
    if not c.valid
    then codes "USR-VCOM: <invalid>"
    else codes "USR-VCOM: " ++ decimal c.baud_rate ++ codes " baud, " ++ mode_string c

abbrev nothing_sent : Conn → Written
nothing_sent conn = record { conn = conn; count = 0; ok = true }

-- `SendToDevice`; `none` is a nil connection.
unfoldable pub send_to_device : UsrVcomConfig → Option Conn → Option Written
send_to_device c none = none
send_to_device c (some conn) = some (
    if not c.valid
    then nothing_sent conn
    else if is_empty (build_packet c)
    then nothing_sent conn
    else write conn (build_packet c))

mode_string_short :
    (c : UsrVcomConfig)
    → IsPortSetting c
    → mode_string c ≡ (b'0' + c.data_bits) ∷ parity_char c.parity ∷ (b'0' + c.stop_bits) ∷ []
unfolding mode_string
mode_string_short c h =
    rw
      (
        decimal_small c.data_bits (omega (arith, h.data_hi)),
        decimal_small c.stop_bits (omega (arith, h.stop_hi)),
      )
      refl

parity_char_injective : (p q : ℕ) → p ≤ 4 → q ≤ 4 → parity_char p ≡ parity_char q → p ≡ q
parity_char_injective p q hp hq e = ground arith

-- Port settings as ParseUSRVCOM can return them have the same mode only if they have the same data
-- bits, parity and stop bits.
pub mode_string_injective :
    (c d : UsrVcomConfig)
    → IsPortSetting c
    → IsPortSetting d
    → mode_string c ≡ mode_string d
    → (c.data_bits ≡ d.data_bits) × (c.parity ≡ d.parity) × (c.stop_bits ≡ d.stop_bits)
mode_string_injective c d hc hd e =
    let same = sym (mode_string_short c hc) ∙ e ∙ mode_string_short d hd in
    let bits : b'0' + c.data_bits ≡ b'0' + d.data_bits = cc in
    let letter : parity_char c.parity ≡ parity_char d.parity = cc in
    let stop : b'0' + c.stop_bits ≡ b'0' + d.stop_bits = cc in
    (
      omega (arith, bits),
      parity_char_injective c.parity d.parity hc.parity_hi hd.parity_hi letter,
      omega (arith, stop),
    )

build_packet_nonempty : (c : UsrVcomConfig) → c.valid ≡ true → is_empty (build_packet c) ≡ false
unfolding build_packet to_commands append_frames
build_packet_nonempty c v = rw v refl

-- On a device's connection that takes all writes, SendToDevice writes the packet of a setting that
-- ParseUSRVCOM can return.
pub send_to_device-open :
    (c : UsrVcomConfig) (conn : Conn)
    → c.valid ≡ true
    → IsOpen conn
    → send_to_device c (some conn)
      ≡ some (record {
        conn = record conn { sent = conn.sent ++ build_packet c };
        count = length (build_packet c);
        ok = true;
      })
unfolding send_to_device
send_to_device-open c conn v h =
    simp (v, build_packet_nonempty c v, write_open_lem conn (build_packet c) h)
