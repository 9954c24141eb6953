-- ===== src/Config/Durations.antt =====
-- What durations getDurationEnv of internal/config/config.go reads.
use proxy_rfc.Base.{
  ℕ, ◌+◌, ◌-◌, ◌*◌, ◌^◌, ◌<◌, ◌≡◌, refl, ◌∙◌, false, some, [], ◌∷◌, Bytes, All, is_empty, arith,
}
use proxy_rfc.Decimal.{
  decimal, IsDigit, read_from, read_from-decimal, decimal-IsDigit, decimal_nonempty,
}
use proxy_rfc.Config.{
  Environment, read_digits, read_number, positive, atoi, second, get_duration_env,
}

read_digits_lem : (acc : ℕ) (s : Bytes) → All IsDigit s → read_digits acc s ≡ some (read_from acc s)
unfolding read_digits
read_digits_lem acc [] h = refl
read_digits_lem acc (c ∷ s) h =
    let (d, hs) = h in ground (arith, read_digits_lem (acc * 10 + (c - b'0')) s hs)

read_number-decimal : (n : ℕ) → read_number (decimal n) ≡ some n
read_number-decimal n =
    rw (decimal_nonempty n, read_digits_lem 0 (decimal n) (decimal-IsDigit n), read_from-decimal n)
      refl

-- A text that begins with a digit has no sign.
atoi_unsigned : (s : Bytes) → All IsDigit s → is_empty s ≡ false → atoi s ≡ positive (read_number s)
unfolding atoi
atoi_unsigned [] h e = absurd (cc)
atoi_unsigned (c ∷ s) h e = let (d, hs) = h in ground arith

pub atoi-decimal : (n : ℕ) → n < 2 ^ 63 → atoi (decimal n) ≡ some n
atoi-decimal n h =
    atoi_unsigned (decimal n) (decimal-IsDigit n) (decimal_nonempty n)
    ∙ rw (read_number-decimal n) (ground arith)

atoi_negated : (n : ℕ) → 0 < n → n < 2 ^ 63 → atoi (b'-' ∷ decimal n) ≡ some (2 ^ 64 - n)
unfolding atoi
atoi_negated n h0 h = rw (read_number-decimal n) (ground arith)

-- Where a variable holds the digits of a positive number of seconds whose nanoseconds are below
-- 2 ^ 64, its duration is the word of that many nanoseconds; with a minus sign before the digits it
-- is the word of as many below zero.
pub get_duration_env_lem :
    (env : Environment) (key : Bytes) (default n : ℕ)
    → 0 < n
    → n * second < 2 ^ 64
    → (env key ≡ decimal n → get_duration_env env key default ≡ n * second)
      × (env key ≡ b'-' ∷ decimal n → get_duration_env env key default ≡ 2 ^ 64 - n * second)
unfolding get_duration_env
get_duration_env_lem env key default n h0 h = (
  (λ e. rw (e, decimal_nonempty n, atoi-decimal n (omega arith)) (omega arith)),
  (λ e. rw (e, atoi_negated n h0 (omega arith)) (omega arith)),
)
