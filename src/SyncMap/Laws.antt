-- ===== src/SyncMap/Laws.antt =====
-- Laws of the maps: a map never holds a key twice, and a key's value is what was stored last.
use mathlib.Core.Path.{fun_ext}
use proxy_rfc.Base.{
  ℕ, ◌+◌, ◌≡◌, ◌≢◌, refl, Option, none, some, List, [], ◌∷◌, Bytes, All, bytes_eq, bytes_eq_iff,
  length, if◌then◌else◌, Bool-cases, inl, inr, arith,
}
use proxy_rfc.SyncMap.{load, store, delete, keys}

-- No key stands twice.
abbrev pub IsMap {ℓ} : {V : Type ℓ} → List (Bytes × V) → Type 0
IsMap [] = Unit
IsMap ((k, v) ∷ m) = All (λ j. j ≢ k) (keys m) × IsMap m

abbrev pub found {ℓ} : {V : Type ℓ} → Option V → ℕ
found none = 0
found (some v) = 1

module _ {ℓ} {V : Type ℓ} where
  pub load-store :
      (k j : Bytes) (v : V) (m : List (Bytes × V))
      → load j (store k v m) ≡ (if bytes_eq k j then some v else load j m)
  unfolding load store
  load-store k j v [] = refl
  load-store k j v ((i, w) ∷ m) =
      ground (arith, bytes_eq_iff k j, bytes_eq_iff i k, bytes_eq_iff i j, load-store k j v m)

  pub load_absent : (k : Bytes) (m : List (Bytes × V)) → All (λ j. j ≢ k) (keys m) → load k m ≡ none
  unfolding load
  load_absent k [] h = refl
  load_absent k ((j, v) ∷ m) h = ground (arith, bytes_eq_iff j k, load_absent k m h.1)

  pub load-delete :
      (k j : Bytes) (m : List (Bytes × V))
      → IsMap m
      → load j (delete k m) ≡ (if bytes_eq k j then none else load j m)
  unfolding load delete
  load-delete k j [] h = ground arith
  load-delete k j ((i, w) ∷ m) h = ground (
    arith,
    bytes_eq_iff k j,
    bytes_eq_iff i k,
    bytes_eq_iff i j,
    load_absent i m h.0,
    load-delete k j m h.1,
  )

  All-keys-store :
      (P : Bytes → Type 0) (k : Bytes) (v : V) (m : List (Bytes × V))
      → P k
      → All P (keys m)
      → All P (keys (store k v m))
  unfolding store
  All-keys-store P k v [] p h = (p, tt)
  All-keys-store P k v ((j, w) ∷ m) p h = elim (Bool-cases (bytes_eq j k)) [
    | inl e ↦ rw e (p, h.1)
    | inr e ↦ rw e (h.0, All-keys-store P k v m p h.1)
  ]

  All-keys-delete :
      (P : Bytes → Type 0) (k : Bytes) (m : List (Bytes × V))
      → All P (keys m)
      → All P (keys (delete k m))
  unfolding delete
  All-keys-delete P k [] h = tt
  All-keys-delete P k ((j, w) ∷ m) h = elim (Bool-cases (bytes_eq j k)) [
    | inl e ↦ rw e h.1
    | inr e ↦ rw e (h.0, All-keys-delete P k m h.1)
  ]

  pub store-IsMap : (k : Bytes) (v : V) (m : List (Bytes × V)) → IsMap m → IsMap (store k v m)
  unfolding store
  store-IsMap k v [] h = (tt, tt)
  store-IsMap k v ((j, w) ∷ m) h = elim (Bool-cases (bytes_eq j k)) [
    | inl e ↦ rw e (rw (← (bytes_eq_iff j k).0 e) h)
    | inr e ↦ rw e (
      All-keys-store (λ i. i ≢ j) k v m (λ q. ground (arith, bytes_eq_iff j k)) h.0,
      store-IsMap k v m h.1,
    )
  ]

  pub delete-IsMap : (k : Bytes) (m : List (Bytes × V)) → IsMap m → IsMap (delete k m)
  unfolding delete
  delete-IsMap k [] h = tt
  delete-IsMap k ((j, w) ∷ m) h = elim (Bool-cases (bytes_eq j k)) [
    | inl e ↦ rw e h.1
    | inr e ↦ rw e (All-keys-delete (λ i. i ≢ j) k m h.0, delete-IsMap k m h.1)
  ]

  -- A new key makes the map one longer, and one that is deleted one shorter.
  pub length-store :
      (k : Bytes) (v : V) (m : List (Bytes × V))
      → length (store k v m) + found (load k m) ≡ length m + 1
  unfolding store load
  length-store k v [] = refl
  length-store k v ((j, w) ∷ m) = ground (arith, length-store k v m)

  pub length-delete :
      (k : Bytes) (m : List (Bytes × V)) → length (delete k m) + found (load k m) ≡ length m
  unfolding delete load
  length-delete k [] = refl
  length-delete k ((j, w) ∷ m) = ground (arith, length-delete k m)

  pub All-store {κ} :
      (P : Bytes × V → Type κ) (k : Bytes) (v : V) (m : List (Bytes × V))
      → P (k, v)
      → All P m
      → All P (store k v m)
  unfolding store
  All-store P k v [] p h = (p, tt)
  All-store P k v ((j, w) ∷ m) p h = elim (Bool-cases (bytes_eq j k)) [
    | inl e ↦ rw e (p, h.1)
    | inr e ↦ rw e (h.0, All-store P k v m p h.1)
  ]

  pub All-delete {κ} :
      (P : Bytes × V → Type κ) (k : Bytes) (m : List (Bytes × V)) → All P m → All P (delete k m)
  unfolding delete
  All-delete P k [] h = tt
  All-delete P k ((j, w) ∷ m) h = elim (Bool-cases (bytes_eq j k)) [
    | inl e ↦ rw e h.1
    | inr e ↦ rw e (h.0, All-delete P k m h.1)
  ]

  -- A value that is found stands in the map under its key.
  pub load-All {κ} :
      (P : Bytes × V → Type κ) (k : Bytes) (m : List (Bytes × V)) {v : V}
      → load k m ≡ some v
      → All P m
      → P (k, v)
  unfolding load
  load-All P k [] e h = absurd (cc)
  load-All P k ((j, w) ∷ m) {v} e h = elim (Bool-cases (bytes_eq j k)) [
    | inl q ↦ let same : w ≡ v = ground arith in rw (← same, ← (bytes_eq_iff j k).0 q) h.0
    | inr q ↦ load-All P k m (ground arith) h.1
  ]

  pub delete_absent : (k : Bytes) (m : List (Bytes × V)) → load k m ≡ none → delete k m ≡ m
  unfolding load delete
  delete_absent k [] e = refl
  delete_absent k ((j, w) ∷ m) e = ground (arith, delete_absent k m)

  -- A map as a function, changed at one key.
  abbrev pub update : Bytes → Option V → (Bytes → Option V) → Bytes → Option V
  update k o f j = if bytes_eq k j then o else f j

  pub view-store :
      (k : Bytes) (v : V) (m : List (Bytes × V))
      → (λ j. load j (store k v m)) ≡ update k (some v) (λ j. load j m)
  view-store k v m = fun_ext λ j. load-store k j v m

  pub view-delete :
      (k : Bytes) (m : List (Bytes × V))
      → IsMap m
      → (λ j. load j (delete k m)) ≡ update k none (λ j. load j m)
  view-delete k m h = fun_ext λ j. load-delete k j m h
