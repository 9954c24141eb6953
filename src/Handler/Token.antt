-- ===== src/Handler/Token.antt =====
-- Which tokens the handlers accept.
use proxy_rfc.Base.{
  ◌≡◌, ◌≢◌, ◌↔◌, ◌⊎◌, inl, inr, refl, ap, subst, ◌∙◌, some, [], ◌∷◌, ◌++◌, Bytes, All, bytes_eq_iff,
  bytes_eq_refl, Option-cases, arith,
}
use proxy_rfc.Handler.{parse_token}
use proxy_rfc.Text.{split_at}
use proxy_rfc.Text.Laws.{split_at-AtFirst, split_at-append}

-- The token names the device: bare where no token is configured, and otherwise behind the
-- configured token and a "+".
abbrev pub Names : Bytes → Bytes → Bytes → Type 0
Names auth token id =
    ((auth ≡ []) × (token ≡ id))
    ⊎ ((auth ≢ []) × (token ≡ auth ++ (b'+' ∷ id)) × All (λ c. c ≢ b'+') auth)

parse_token_sound :
    (auth token id : Bytes) → parse_token auth token ≡ some id → Names auth token id × (id ≢ [])
unfolding parse_token
parse_token_sound auth [] id e = cc
parse_token_sound [] (t ∷ ts) id e = (inl (refl, cc), λ q. cc)
parse_token_sound (a ∷ auth) (t ∷ ts) id e = elim (Option-cases (split_at b'+' (t ∷ ts))) [
  | inl q ↦ absurd (ground (arith, q))
  | inr ((given, found), q) ↦
      let (split, plain) = rw q at (split_at-AtFirst b'+' (t ∷ ts)) in
      let same : given ≡ a ∷ auth = ground (arith, q, bytes_eq_iff given (a ∷ auth)) in
      let it_is : found ≡ id = ground (arith, q) in
      (
        inr (
          (λ r. cc),
          split ∙ ap (λ g. g ++ (b'+' ∷ found)) same ∙ ap (λ i. (a ∷ auth) ++ (b'+' ∷ i)) it_is,
          subst (All (λ c. c ≢ b'+')) same plain,
        ),
        (λ r. ground (arith, q)),
      )
]

parse_token_complete :
    (auth token id : Bytes) → Names auth token id → id ≢ [] → parse_token auth token ≡ some id
unfolding parse_token
parse_token_complete auth token [] n ne = absurd (ne refl)
parse_token_complete auth token (i ∷ id) (inl (e, q)) ne = rw (e, q)
parse_token_complete [] token (i ∷ id) (inr (has, q, plain)) ne = absurd (has refl)
parse_token_complete (a ∷ auth) token (i ∷ id) (inr (has, q, plain)) ne =
    rw q (rw (split_at-append b'+' (a ∷ auth) (i ∷ id) plain) (rw (bytes_eq_refl (a ∷ auth))))

-- A token is accepted for a device exactly when it names it and the identifier is not empty. So
-- with a configured token that holds a "+" nothing is ever accepted.
pub parse_token_iff :
    (auth token id : Bytes) → (parse_token auth token ≡ some id) ↔ (Names auth token id × (id ≢ []))
parse_token_iff auth token id =
    (parse_token_sound auth token id, λ h. parse_token_complete auth token id h.0 h.1)
