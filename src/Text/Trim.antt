-- ===== src/Text/Trim.antt =====
-- TrimSpace on a text that begins with "AT".
use mathlib.Core.List.{reverse, reverse-append}
use proxy_rfc.Base.{
  ℕ, zero, suc, ◌≤◌, ◌≡◌, refl, ap, ◌∙◌, [], ◌∷◌, ◌++◌, Bytes, length, ℕ-cases, inl, inr, arith,
}
use proxy_rfc.Text.{space_width, last_space_width, trim_while, trim_space}

-- "TA", as it stands at the end of the reversed text.
abbrev ta : Bytes
ta = b'T' ∷ b'A' ∷ []

last_space_width-le : (u : Bytes) → last_space_width (u ++ ta) ≤ length u
unfolding last_space_width
last_space_width-le [] = omega arith
last_space_width-le (x ∷ []) = ground arith
last_space_width-le (x ∷ y ∷ []) = ground arith
last_space_width-le (x ∷ y ∷ z ∷ u) = ground arith

trim_while-stop :
    (width : Bytes → ℕ) (x : ℕ) (xs : Bytes)
    → width (x ∷ xs) ≡ 0
    → trim_while width zero (x ∷ xs) ≡ x ∷ xs
unfolding trim_while
trim_while-stop width x xs e = rw (e, trim_while)

trim_while-more :
    (width : Bytes → ℕ) (x : ℕ) (xs : Bytes) (k : ℕ)
    → width (x ∷ xs) ≡ suc k
    → trim_while width zero (x ∷ xs) ≡ trim_while width k xs
unfolding trim_while
trim_while-more width x xs k e = rw (e, trim_while)

trim_while-ta :
    (skip : ℕ) (u : Bytes)
    → skip ≤ length u
    → (u' : Bytes) × (trim_while last_space_width skip (u ++ ta) ≡ u' ++ ta)
unfolding trim_while
trim_while-ta zero [] h = ([], unfold last_space_width in refl)
trim_while-ta (suc skip) [] h = absurd (omega arith)
trim_while-ta (suc skip) (x ∷ u) h = trim_while-ta skip u (omega arith)
trim_while-ta zero (x ∷ u) h = elim (ℕ-cases (last_space_width (x ∷ (u ++ ta)))) [
  | inl e ↦ (x ∷ u, trim_while-stop last_space_width x (u ++ ta) e)
  | inr (k, e) ↦
      let (u', q) = trim_while-ta k u (omega (arith, last_space_width-le (x ∷ u))) in
      (u', trim_while-more last_space_width x (u ++ ta) k e ∙ q)
]

space_width-at : (r : Bytes) → space_width (b'A' ∷ b'T' ∷ r) ≡ 0
unfolding space_width
space_width-at [] = refl
space_width-at (x ∷ r) = refl

-- A text that begins with "AT" begins with it when trimmed.
pub trim_space-at : (r : Bytes) → (r' : Bytes) × (trim_space (b'A' ∷ b'T' ∷ r) ≡ b'A' ∷ b'T' ∷ r')
unfolding trim_space
trim_space-at r =
    let (u, e) = trim_while-ta zero (reverse r) (omega arith) in
    (
      reverse u,
      ap (λ l. reverse (trim_while last_space_width 0 (reverse l)))
            (trim_while-stop space_width b'A' (b'T' ∷ r) (space_width-at r))
          ∙ ap (λ l. reverse (trim_while last_space_width 0 l))
              (reverse-append (b'A' ∷ b'T' ∷ []) r)
          ∙ ap reverse e
          ∙ reverse-append u ta,
    )
