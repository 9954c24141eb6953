-- ===== src/Base64.antt =====
-- Go's encoding/base64, StdEncoding with padding, as internal/api/handlers.go uses it for its
-- cookie: three bytes are four characters of six bits each.
pub mod RoundTrip
use proxy_rfc.Base.{
  ℕ, ◌+◌, ◌-◌, ◌*◌, ◌/◌, ◌%◌, Bool, true, false, ◌||◌, Option, none, some, List, [], ◌∷◌, ◌++◌,
  Bytes, is_empty, ltb, leb, ◌==◌, ◌&&◌, if◌then◌else◌,
}

-- The character of a six-bit value: A to Z, a to z, 0 to 9, `+` and `/`.
unfoldable pub char_of : ℕ → ℕ
char_of v =
    if ltb v 26
    then v + b'A'
    else if ltb v 52
    then v - 26 + b'a'
    else if ltb v 62
    then v - 52 + b'0'
    else if v == 62
    then b'+'
    else b'/'

-- The value of a character; `none` outside of the alphabet.
unfoldable pub value_of : ℕ → Option ℕ
value_of c =
    if leb b'A' c && leb c b'Z'
    then some (c - b'A')
    else if leb b'a' c && leb c b'z'
    then some (c - b'a' + 26)
    else if leb b'0' c && leb c b'9'
    then some (c - b'0' + 52)
    else if c == b'+'
    then some 62
    else if c == b'/'
    then some 63
    else none

-- `EncodeToString`.
unfoldable pub encode : Bytes → Bytes
encode [] = []
encode (a ∷ []) = char_of (a / 4) ∷ char_of (a % 4 * 16) ∷ b'=' ∷ b'=' ∷ []
encode (a ∷ b ∷ []) =
    char_of (a / 4) ∷ char_of (a % 4 * 16 + b / 16) ∷ char_of (b % 16 * 4) ∷ b'=' ∷ []
encode (a ∷ b ∷ c ∷ r) =
    char_of (a / 4)
    ∷ char_of (a % 4 * 16 + b / 16)
    ∷ char_of (b % 16 * 4 + c / 64)
    ∷ char_of (c % 64)
    ∷ encode r

-- The bytes of two, three and four values; the bits that are left over are dropped.
abbrev pub bytes2 : Option ℕ → Option ℕ → Option Bytes
bytes2 (some p) (some q) = some ((p * 4 + q / 16) ∷ [])
bytes2 _ _ = none

abbrev pub bytes3 : Option ℕ → Option ℕ → Option ℕ → Option Bytes
bytes3 (some p) (some q) (some r) = some ((p * 4 + q / 16) ∷ (q % 16 * 16 + r / 4) ∷ [])
bytes3 _ _ _ = none

abbrev pub bytes4 : Option ℕ → Option ℕ → Option ℕ → Option ℕ → Option Bytes
bytes4 (some p) (some q) (some r) (some s) =
    some ((p * 4 + q / 16) ∷ (q % 16 * 16 + r / 4) ∷ (r % 4 * 64 + s) ∷ [])
bytes4 _ _ _ _ = none

abbrev pub append_decoded : Option Bytes → Option Bytes → Option Bytes
append_decoded (some xs) (some ys) = some (xs ++ ys)
append_decoded _ _ = none

-- The last four characters may end in one or two `=`.
abbrev pub decode_last : ℕ → ℕ → ℕ → ℕ → Option Bytes
decode_last a b c d =
    if d == b'='
    then if c == b'='
      then bytes2 (value_of a) (value_of b)
      else bytes3 (value_of a) (value_of b) (value_of c)
    else bytes4 (value_of a) (value_of b) (value_of c) (value_of d)

unfoldable pub decode_chars : Bytes → Option Bytes
decode_chars [] = some []
decode_chars (a ∷ b ∷ c ∷ d ∷ r) =
    if is_empty r
    then decode_last a b c d
    else append_decoded (bytes4 (value_of a) (value_of b) (value_of c) (value_of d))
        (decode_chars r)
decode_chars _ = none

-- Line ends are passed over wherever they stand.
unfoldable pub drop_line_ends : Bytes → Bytes
drop_line_ends [] = []
drop_line_ends (c ∷ s) = if c == b'\r' || c == b'\n' then drop_line_ends s else c ∷ drop_line_ends s

-- `DecodeString`; `none` is its error.
unfoldable pub decode : Bytes → Option Bytes
decode s = decode_chars (drop_line_ends s)
