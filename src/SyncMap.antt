-- ===== src/SyncMap.antt =====
-- Go's sync.Map with string keys, as the registry and the session manager use it: each call is one
-- step. The list keeps the order of Range, which Go leaves open.
pub mod Laws
use proxy_rfc.Base.{
  ℕ, Bool, Option, none, some, List, [], ◌∷◌, Bytes, bytes_eq, map, length, if◌then◌else◌,
}

module _ {ℓ} {V : Type ℓ} where
  -- `Load`.
  unfoldable pub load : Bytes → List (Bytes × V) → Option V
  load k [] = none
  load k ((j, v) ∷ m) = if bytes_eq j k then some v else load k m

  -- `Store`.
  unfoldable pub store : Bytes → V → List (Bytes × V) → List (Bytes × V)
  store k v [] = (k, v) ∷ []
  store k v ((j, w) ∷ m) = if bytes_eq j k then (k, v) ∷ m else (j, w) ∷ store k v m

  -- `Delete`.
  unfoldable pub delete : Bytes → List (Bytes × V) → List (Bytes × V)
  delete k [] = []
  delete k ((j, w) ∷ m) = if bytes_eq j k then m else (j, w) ∷ delete k m

  -- The values in the order of Range.
  abbrev pub values : List (Bytes × V) → List V
  values = map (λ e. e.1)

  abbrev pub keys : List (Bytes × V) → List Bytes
  keys = map (λ e. e.0)
