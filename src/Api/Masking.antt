-- ===== src/Api/Masking.antt =====
-- What maskIP of internal/api/handlers.go leaves of an address.
use proxy_rfc.Base.{ℕ, ◌≡◌, ◌≢◌, refl, [], ◌∷◌, ◌++◌, Bytes, All, codes, is_empty, if◌then◌else◌}
use proxy_rfc.Text.Laws.{split_at-append, split_at_absent}
use proxy_rfc.Api.{mask_ip}

-- Of an address with a text before its first dot the mask keeps that text and nothing else, and any
-- two other addresses that are not empty have the same mask.
pub mask_ip_lem :
    (octet : Bytes)
    → All (λ c. c ≢ b'.') octet
    → ((x : ℕ)
        → x ≢ b'.'
        → (rest : Bytes)
        → mask_ip ((x ∷ octet) ++ (b'.' ∷ rest)) ≡ (x ∷ octet) ++ codes ".x.x.x:xxxxx")
      × (mask_ip octet ≡ (if is_empty octet then [] else codes "x.x.x.x:xxxxx"))
      × ((rest : Bytes) → mask_ip (b'.' ∷ rest) ≡ codes "x.x.x.x:xxxxx")
unfolding mask_ip
mask_ip_lem octet h = (
  (λ x nx rest. rw (split_at-append b'.' (x ∷ octet) rest (nx, h)) refl),
  rw (split_at_absent b'.' octet h) refl,
  (λ rest. refl),
)
