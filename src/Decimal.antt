-- ===== src/Decimal.antt =====
-- The decimal digits that fmt.Sprintf prints for "%d", for numbers that are not negative.
use proxy_rfc.Base.{
  ℕ, zero, suc, ◌+◌, ◌-◌, ◌*◌, ◌/◌, ◌%◌, ◌≤◌, ◌<◌, ◌≡◌, refl, ap, sym, ◌∙◌, [], ◌∷◌, ◌++◌, Bytes,
  All, All-append, false, is_empty, ltb, if◌then◌else◌, Bool-cases, inl, inr, arith,
}

-- Each round takes the last digit off, so the number itself is fuel enough.
abbrev digit : ℕ → Bytes
digit d = (b'0' + d) ∷ []

unfoldable pub digits : ℕ → ℕ → Bytes
digits zero n = digit (n % 10)
digits (suc fuel) n =
    let front = digits fuel (n / 10) in if ltb n 10 then digit n else front ++ digit (n % 10)

unfoldable pub decimal : ℕ → Bytes
unfolding digits
decimal n = digits n n

-- The number that a row of digits stands for, read from the left.
abbrev pub read_from : ℕ → Bytes → ℕ
read_from acc [] = acc
read_from acc (c ∷ cs) = read_from (acc * 10 + (c - b'0')) cs

read_from-append :
    (acc : ℕ) (cs : Bytes) (d : ℕ) → read_from acc (cs ++ digit d) ≡ read_from acc cs * 10 + d
read_from-append acc [] d = omega arith
read_from-append acc (c ∷ cs) d = read_from-append (acc * 10 + (c - b'0')) cs d

read_from-digits : (fuel n : ℕ) → n ≤ fuel → read_from 0 (digits fuel n) ≡ n
unfolding digits
read_from-digits zero n h = omega arith
read_from-digits (suc fuel) n h = elim (Bool-cases (ltb n 10)) [
  | inl small ↦ rw small (omega arith)
  | inr large ↦ rw large (
      read_from-append 0 (digits fuel (n / 10)) (n % 10)
      ∙ ground (arith, read_from-digits fuel (n / 10)))
]

pub read_from-decimal : (n : ℕ) → read_from 0 (decimal n) ≡ n
unfolding decimal
read_from-decimal n = read_from-digits n n (omega arith)

-- Different numbers are printed differently.
pub decimal_injective : (m n : ℕ) → decimal m ≡ decimal n → m ≡ n
decimal_injective m n e = sym (read_from-decimal m) ∙ ap (read_from 0) e ∙ read_from-decimal n

abbrev pub IsDigit : ℕ → Type 0
IsDigit c = (b'0' ≤ c) × (c ≤ b'9')

digits-IsDigit : (fuel n : ℕ) → All IsDigit (digits fuel n)
unfolding digits
digits-IsDigit zero n = ((omega arith, omega arith), tt)
digits-IsDigit (suc fuel) n = elim (Bool-cases (ltb n 10)) [
  | inl small ↦ rw small ((omega arith, ground arith), tt)
  | inr large ↦ rw large (
      All-append IsDigit (digits fuel (n / 10)) (digit (n % 10)) (digits-IsDigit fuel (n / 10))
        ((omega arith, omega arith), tt))
]

pub decimal-IsDigit : (n : ℕ) → All IsDigit (decimal n)
unfolding decimal
decimal-IsDigit n = digits-IsDigit n n

append_nonempty : (xs : Bytes) (d : ℕ) → is_empty (xs ++ digit d) ≡ false
append_nonempty [] d = refl
append_nonempty (x ∷ xs) d = refl

digits_nonempty : (fuel n : ℕ) → is_empty (digits fuel n) ≡ false
unfolding digits
digits_nonempty zero n = refl
digits_nonempty (suc fuel) n = ground (arith, append_nonempty (digits fuel (n / 10)) (n % 10))

pub decimal_nonempty : (n : ℕ) → is_empty (decimal n) ≡ false
unfolding decimal
decimal_nonempty n = digits_nonempty n n

pub decimal_small : (n : ℕ) → n < 10 → decimal n ≡ (b'0' + n) ∷ []
unfolding decimal digits
decimal_small zero h = refl
decimal_small (suc n) h = ground arith
