-- ===== src/Usrvcom/Settings.antt =====
-- The settings that usrvcom.go reads from a packet.
use proxy_rfc.Base.{
  ℕ, ◌+◌, ◌^◌, ◌<◌, ◌≤◌, ◌≡◌, refl, true, false, Option, none, some, [], ◌∷◌, Bytes, IsBytes,
  length, drop, All-drop, Bool-cases, inl, inr, ltb→lt, zero, suc, arith, ltb,
}
use proxy_rfc.Usrvcom.{
  UsrVcomConfig, is_usrvcom, find_header, decode_packet, parse_found, parse_usrvcom,
}

-- The ranges of a serial port's settings as RFC 2217 takes them.
pub record IsPortSetting (c : UsrVcomConfig) : Type 0 where
  pub baud_24_bits : c.baud_rate < 2 ^ 24
  pub data_lo : 5 ≤ c.data_bits
  pub data_hi : c.data_bits ≤ 8
  pub parity_hi : c.parity ≤ 4
  pub stop_lo : 1 ≤ c.stop_bits
  pub stop_hi : c.stop_bits ≤ 2
  pub is_valid : c.valid ≡ true
  pub raw_length : length c.raw_data ≡ 8

decode_packet-IsPortSetting :
    (bytes : Bytes) {c : UsrVcomConfig}
    → IsBytes bytes
    → decode_packet bytes ≡ some c
    → IsPortSetting c
unfolding decode_packet
decode_packet-IsPortSetting (h0 ∷ h1 ∷ h2 ∷ hi ∷ mid ∷ lo ∷ param ∷ sum ∷ rest) b e = ground arith
decode_packet-IsPortSetting _ b e = cc

-- The result is that of the first position with a header and room for a packet, or there is none.
abbrev pub AtFirstHeader : Bytes → Option UsrVcomConfig → Type 0
AtFirstHeader bytes none = (i : ℕ) → i + 8 ≤ length bytes → is_usrvcom (drop i bytes) ≡ false
AtFirstHeader bytes (some c) =
    (i : ℕ) × (i + 8 ≤ length bytes)
    × (is_usrvcom (drop i bytes) ≡ true)
    × ((j : ℕ) → j < i → is_usrvcom (drop j bytes) ≡ false)
    × (decode_packet (drop i bytes) ≡ some c)

decode_packet-total :
    (bytes : Bytes) → 8 ≤ length bytes → (c : UsrVcomConfig) × (decode_packet bytes ≡ some c)
unfolding decode_packet
decode_packet-total (h0 ∷ h1 ∷ h2 ∷ hi ∷ mid ∷ lo ∷ param ∷ sum ∷ rest) h = (_, refl)
decode_packet-total _ h = absurd (omega arith)

AtFirstHeader-cons :
    (x : ℕ) (xs : Bytes) (r : Option UsrVcomConfig)
    → is_usrvcom (x ∷ xs) ≡ false
    → AtFirstHeader xs r
    → AtFirstHeader (x ∷ xs) r
AtFirstHeader-cons x xs none h f = elim [ zero ↦ λ _. h | suc i ↦ λ le. f i (omega arith) ]
AtFirstHeader-cons x xs (some c) h (i, room, head, first, e) =
    (suc i, omega arith, head, elim [ zero ↦ λ _. h | suc j ↦ λ lt. first j (omega arith) ], e)

AtFirstHeader-zero :
    (bytes : Bytes)
    → 8 ≤ length bytes
    → is_usrvcom bytes ≡ true
    → AtFirstHeader bytes (decode_packet bytes)
AtFirstHeader-zero bytes room head =
    let (c, d) = decode_packet-total bytes room in
    rw d (0, omega arith, head, (λ j lt. absurd (omega arith)), d)

find_header-AtFirstHeader : (bytes : Bytes) → AtFirstHeader bytes (parse_found (find_header bytes))
unfolding find_header parse_found
find_header-AtFirstHeader [] = λ i h. absurd (omega arith)
find_header-AtFirstHeader (x ∷ xs) = elim (Bool-cases (ltb (length (x ∷ xs)) 8)) [
  | inl short ↦
      rw (short, find_header) (λ i h. absurd (omega (arith, ltb→lt (length (x ∷ xs)) 8 short)))
  | inr room ↦ elim (Bool-cases (is_usrvcom (x ∷ xs))) [
    | inl head ↦ rw (room, head, find_header) (AtFirstHeader-zero (x ∷ xs) (ground arith) head)
    | inr miss ↦
        rw (room, miss, find_header) (AtFirstHeader-cons x xs _ miss (find_header-AtFirstHeader xs))
  ]
]

-- `ParseUSRVCOM` decodes the packet at the first position that has the header and 8 bytes; it
-- returns nil only where there is no such position.
pub parse_usrvcom-AtFirstHeader : (bytes : Bytes) → AtFirstHeader bytes (parse_usrvcom bytes)
unfolding parse_usrvcom
parse_usrvcom-AtFirstHeader bytes = elim (Bool-cases (ltb (length bytes) 8)) [
  | inl short ↦ rw short (λ i h. absurd (omega (arith, ltb→lt (length bytes) 8 short)))
  | inr room ↦ rw room (find_header-AtFirstHeader bytes)
]

-- Whatever `ParseUSRVCOM` returns for bytes is a port setting in the ranges of RFC 2217: a baud
-- rate of 24 bits, 5 to 8 data bits, parity 0 to 4, 1 or 2 stop bits; and it is marked valid.
pub parse_usrvcom-IsPortSetting :
    (bytes : Bytes) {c : UsrVcomConfig}
    → IsBytes bytes
    → parse_usrvcom bytes ≡ some c
    → IsPortSetting c
parse_usrvcom-IsPortSetting bytes b e =
    let (i, _, _, _, d) = rw e at (parse_usrvcom-AtFirstHeader bytes) in
    decode_packet-IsPortSetting (drop i bytes) (All-drop _ i bytes b) d
