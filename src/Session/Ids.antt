-- ===== src/Session/Ids.antt =====
-- Identifiers of sessions.
use proxy_rfc.Base.{ℕ, ◌≡◌, ◌≢◌, refl, [], ◌∷◌, ◌++◌, Bytes, All, All-mono, arith}
use proxy_rfc.Decimal.{decimal, decimal_injective, decimal-IsDigit}
use proxy_rfc.Session.{session_id}

-- Texts that part at their first separator part at the same place.
append_injective :
    (sep : ℕ) (a a' b b' : Bytes)
    → All (λ c. c ≢ sep) a
    → All (λ c. c ≢ sep) a'
    → a ++ (sep ∷ b) ≡ a' ++ (sep ∷ b')
    → (a ≡ a') × (b ≡ b')
append_injective sep [] [] b b' h h' e = (refl, cc)
append_injective sep [] (y ∷ a') b b' h h' e = absurd (h'.0 cc)
append_injective sep (x ∷ a) [] b b' h h' e = absurd (h.0 cc)
append_injective sep (x ∷ a) (y ∷ a') b b' h h' e =
    let (p, q) = append_injective sep a a' b b' h.1 h'.1 (cc) in (cc, q)

decimal_plain : (n : ℕ) → All (λ c. c ≢ b'_') (decimal n)
decimal_plain n = All-mono _ _ (decimal n) (λ c d. omega arith) (decimal-IsDigit n)

-- Two session identifiers are equal only if the second of creation and the count are.
pub session_id_injective : (t n t' n' : ℕ) → session_id t n ≡ session_id t' n' → (t ≡ t') × (n ≡ n')
unfolding session_id
session_id_injective t n t' n' e =
    let (p, q) =
      append_injective b'_' (decimal t) (decimal t') (decimal n) (decimal n') (decimal_plain t)
        (decimal_plain t') (cc) in
    (decimal_injective t t' p, decimal_injective n n' q)
