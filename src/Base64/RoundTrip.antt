-- ===== src/Base64/RoundTrip.antt =====
-- What is encoded is decoded to itself.
use proxy_rfc.Base.{
  ℕ, ◌+◌, ◌*◌, ◌/◌, ◌%◌, ◌<◌, ◌≡◌, refl, false, ◌||◌, some, [], ◌∷◌, Bytes, IsBytes, is_empty, ◌==◌,
  arith,
}
use proxy_rfc.Base64.{char_of, value_of, encode, decode, decode_chars, drop_line_ends, bytes4}

value_of-char_of : (v : ℕ) → v < 64 → value_of (char_of v) ≡ some v
unfolding char_of value_of
value_of-char_of v h = ground arith

-- No character of the alphabet is a padding or a line end.
char_of_pad : (v : ℕ) → (char_of v == b'=') ≡ false
unfolding char_of
char_of_pad v = ground arith

char_of_plain : (v : ℕ) → (char_of v == b'\r' || char_of v == b'\n') ≡ false
unfolding char_of
char_of_plain v = ground arith

-- The characters of a text carry no line end.
drop_line_ends-encode : (s : Bytes) → drop_line_ends (encode s) ≡ encode s
unfolding drop_line_ends encode
drop_line_ends-encode [] = refl
drop_line_ends-encode (a ∷ []) = simp (char_of_plain (a / 4), char_of_plain (a % 4 * 16))
drop_line_ends-encode (a ∷ b ∷ []) =
    simp (char_of_plain (a / 4), char_of_plain (a % 4 * 16 + b / 16), char_of_plain (b % 16 * 4))
drop_line_ends-encode (a ∷ b ∷ c ∷ r) = simp (
  char_of_plain (a / 4),
  char_of_plain (a % 4 * 16 + b / 16),
  char_of_plain (b % 16 * 4 + c / 64),
  char_of_plain (c % 64),
  drop_line_ends-encode r,
)

value_of_first : (a : ℕ) → a < 256 → value_of (char_of (a / 4)) ≡ some (a / 4)
value_of_first a h = value_of-char_of (a / 4) (omega arith)

-- Three bytes whose characters are decoded.
bytes4-encode :
    (a b c : ℕ)
    → a < 256
    → b < 256
    → c < 256
    → bytes4
        (value_of (char_of (a / 4)))
        (value_of (char_of (a % 4 * 16 + b / 16)))
        (value_of (char_of (b % 16 * 4 + c / 64)))
        (value_of (char_of (c % 64)))
      ≡ some (a ∷ b ∷ c ∷ [])
bytes4-encode a b c ha hb hc =
    rw
      (
        value_of_first a ha,
        value_of-char_of (a % 4 * 16 + b / 16) (omega arith),
        value_of-char_of (b % 16 * 4 + c / 64) (omega arith),
        value_of-char_of (c % 64) (omega arith),
      )
      (ground arith)

encode_longer : (x : ℕ) (r : Bytes) → is_empty (encode (x ∷ r)) ≡ false
unfolding encode
encode_longer x [] = refl
encode_longer x (y ∷ []) = refl
encode_longer x (y ∷ z ∷ r) = refl

decode_chars-encode : (s : Bytes) → IsBytes s → decode_chars (encode s) ≡ some s
unfolding decode_chars encode
decode_chars-encode [] h = refl
decode_chars-encode (a ∷ []) (ha, _) =
    rw (value_of_first a ha, value_of-char_of (a % 4 * 16) (omega arith)) (ground arith)
decode_chars-encode (a ∷ b ∷ []) (ha, (hb, _)) =
    rw
      (
        char_of_pad (b % 16 * 4),
        value_of_first a ha,
        value_of-char_of (a % 4 * 16 + b / 16) (omega arith),
        value_of-char_of (b % 16 * 4) (omega arith),
      )
      (ground arith)
decode_chars-encode (a ∷ b ∷ c ∷ []) (ha, (hb, (hc, _))) =
    rw (char_of_pad (c % 64), bytes4-encode a b c ha hb hc) refl
decode_chars-encode (a ∷ b ∷ c ∷ d ∷ r) (ha, (hb, (hc, h))) =
    rw (encode_longer d r, bytes4-encode a b c ha hb hc, decode_chars-encode (d ∷ r) h) refl

-- Decoding what the encoder makes of bytes gives them back.
pub decode-encode : (s : Bytes) → IsBytes s → decode (encode s) ≡ some s
unfolding decode
decode-encode s h = rw (drop_line_ends-encode s) (decode_chars-encode s h)
