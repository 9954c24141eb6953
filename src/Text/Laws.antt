-- ===== src/Text/Laws.antt =====
-- Laws of the string functions.
use proxy_rfc.Base.{
  ℕ, ◌≡◌, ◌≢◌, refl, ap, true, Option, none, some, [], ◌∷◌, ◌++◌, Bytes, bytes_eq, bytes_eq_iff,
  length, drop, All, ◌==◌, Bool-cases, ==_iff, inl, inr, arith,
}
use proxy_rfc.Text.{has_prefix, put_first, split_at}

pub has_prefix-append : (p s : Bytes) → has_prefix (p ++ s) p ≡ true
unfolding has_prefix
has_prefix-append [] s = refl
has_prefix-append (x ∷ p) s = ground (arith, has_prefix-append p s)

pub has_prefix-split : (s p : Bytes) → has_prefix s p ≡ true → s ≡ p ++ drop (length p) s
unfolding has_prefix
has_prefix-split s [] h = refl
has_prefix-split [] (p ∷ ps) h = cc
has_prefix-split (x ∷ s) (p ∷ ps) h = ground (arith, has_prefix-split s ps)

-- The text splits at its first separator, or has none.
abbrev pub AtFirst : ℕ → Bytes → Option (Bytes × Bytes) → Type 0
AtFirst sep s none = All (λ c. c ≢ sep) s
AtFirst sep s (some (before, after)) = (s ≡ before ++ (sep ∷ after)) × All (λ c. c ≢ sep) before

AtFirst-put_first :
    (sep x : ℕ) (xs : Bytes) (o : Option (Bytes × Bytes))
    → x ≢ sep
    → AtFirst sep xs o
    → AtFirst sep (x ∷ xs) (put_first x o)
AtFirst-put_first sep x xs none ne h = (ne, h)
AtFirst-put_first sep x xs (some (before, after)) ne (e, h) = (ap (◌∷◌ x) e, (ne, h))

pub split_at-AtFirst : (sep : ℕ) (s : Bytes) → AtFirst sep s (split_at sep s)
unfolding split_at
split_at-AtFirst sep [] = tt
split_at-AtFirst sep (x ∷ xs) = elim (Bool-cases (x == sep)) [
  | inl e ↦ rw e (ap (λ c. c ∷ xs) ((==_iff x sep).0 e), tt)
  | inr e ↦ rw e (
      AtFirst-put_first sep x xs (split_at sep xs) (ground (arith, ==_iff x sep))
        (split_at-AtFirst sep xs))
]

pub split_at-append :
    (sep : ℕ) (before after : Bytes)
    → All (λ c. c ≢ sep) before
    → split_at sep (before ++ (sep ∷ after)) ≡ some (before, after)
unfolding split_at
split_at-append sep [] after h = ground (arith, ==_iff sep sep)
split_at-append sep (x ∷ before) after h = ground (arith, split_at-append sep before after h.1)

pub split_at_absent : (sep : ℕ) (s : Bytes) → All (λ c. c ≢ sep) s → split_at sep s ≡ none
unfolding split_at
split_at_absent sep [] h = refl
split_at_absent sep (x ∷ s) h = ground (arith, split_at_absent sep s h.1)

pub has_prefix-append_left : (s p q : Bytes) → has_prefix s (p ++ q) ≡ true → has_prefix s p ≡ true
unfolding has_prefix
has_prefix-append_left s [] q h = refl
has_prefix-append_left [] (x ∷ p) q h = cc
has_prefix-append_left (y ∷ s) (x ∷ p) q h = ground (arith, has_prefix-append_left s p q)

pub bytes_eq-has_prefix : (s p q : Bytes) → bytes_eq s (p ++ q) ≡ true → has_prefix s p ≡ true
bytes_eq-has_prefix s p q h = rw ((bytes_eq_iff s (p ++ q)).0 h) (has_prefix-append p q)
