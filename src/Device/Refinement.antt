-- ===== src/Device/Refinement.antt =====
-- The registry as its clients see it: a function from identifiers to devices.
use mathlib.Core.List.{Memᴰ, map-map}
use mathlib.Core.List.Memᴰ.{head, tail}
use proxy_rfc.Base.{
  All, All-mono, bytes_eq_refl, subst, suc, ◌≢◌, ◌↔◌, map, Bool-cases, bytes_eq, bytes_eq_iff, inl,
  inr, length, arith, ℕ, ◌≡◌, refl, ap, sym, ◌∙◌, Option, none, some, List, [], ◌∷◌, Bytes,
}
use mathlib.Core.Option
use proxy_rfc.SyncMap.{load, keys}
use proxy_rfc.SyncMap.Laws.{IsMap, store-IsMap, delete-IsMap, update, view-store, view-delete}
use proxy_rfc.Device.{
  Device, Registry, new_registry, register, unregister, get, list, list_info, info_of, Devices,
  count,
}

-- The calls that change a registry.
pub data Call : Type 0 where
  registers : Device → ℕ → Call
  unregisters : Bytes → Call

abbrev pub run : List Call → Registry → Registry
run [] reg = reg
run (registers d ref ∷ calls) reg = run calls (register d ref reg)
run (unregisters id ∷ calls) reg = run calls (unregister id reg)

-- The same calls on a function, where the order of entries is not seen.
abbrev pub replay : List Call → (Bytes → Option ℕ) → Bytes → Option ℕ
replay [] view = view
replay (registers d ref ∷ calls) view = replay calls (update d.id (some ref) view)
replay (unregisters id ∷ calls) view = replay calls (update id none view)

abbrev pub view : Registry → Bytes → Option ℕ
view reg id = get id reg

view-run :
    (calls : List Call) (reg : Registry)
    → IsMap reg
    → IsMap (run calls reg) × (view (run calls reg) ≡ replay calls (view reg))
unfolding get register unregister
view-run [] reg h = (h, refl)
view-run (registers d ref ∷ calls) reg h =
    let (kept, same) = view-run calls (register d ref reg) (store-IsMap d.id ref reg h) in
    (kept, same ∙ ap (replay calls) (view-store d.id ref reg))
view-run (unregisters id ∷ calls) reg h =
    let (kept, same) = view-run calls (unregister id reg) (delete-IsMap id reg h) in
    (kept, same ∙ ap (replay calls) (view-delete id reg h))

-- No identifier stands twice.
abbrev pub IsDistinct : List Bytes → Type 0
IsDistinct [] = Unit
IsDistinct (id ∷ ids) = All (λ j. j ≢ id) ids × IsDistinct ids

-- The identifiers at which a function has a device, each once.
pub record IsDomain (f : Bytes → Option ℕ) (ids : List Bytes) : Type 0 where
  pub distinct : IsDistinct ids
  pub exact : (id : Bytes) → Memᴰ id ids ↔ ((ref : ℕ) × (f id ≡ some ref))

keys-IsDistinct : (reg : Registry) → IsMap reg → IsDistinct (keys reg)
keys-IsDistinct [] h = tt
keys-IsDistinct ((id, ref) ∷ reg) h = (h.0, keys-IsDistinct reg h.1)

found_of_key :
    (reg : Registry) (id : Bytes) → Memᴰ id (keys reg) → (ref : ℕ) × (get id reg ≡ some ref)
unfolding get load
found_of_key [] id m = elim m [ ]
found_of_key ((j, ref) ∷ reg) id m = elim (Bool-cases (bytes_eq j id)) [
  | inl q ↦ (ref, rw q refl)
  | inr q ↦ elim m [
    | head e ↦ absurd (ground (arith, bytes_eq_iff j id, e))
    | tail m' ↦ let (found, e) = found_of_key reg id m' in (found, rw q e)
  ]
]

key_of_found :
    (reg : Registry) (id : Bytes) → (ref : ℕ) × (get id reg ≡ some ref) → Memᴰ id (keys reg)
unfolding get load
key_of_found [] id (ref, e) = absurd (cc)
key_of_found ((j, other) ∷ reg) id (ref, e) = elim (Bool-cases (bytes_eq j id)) [
  | inl q ↦ head (sym ((bytes_eq_iff j id).0 q))
  | inr q ↦ tail (key_of_found reg id (ref, rw q at e))
]

map_agrees :
    (f g : Bytes → Option ℕ) (ids : List Bytes)
    → All (λ id. f id ≡ g id) ids
    → map f ids ≡ map g ids
map_agrees f g [] h = refl
map_agrees f g (id ∷ ids) h = rw (h.0, map_agrees f g ids h.1) refl

map-keys : (reg : Registry) → IsMap reg → map (λ id. get id reg) (keys reg) ≡ map some (list reg)
unfolding get load list
map-keys [] h = refl
map-keys ((j, ref) ∷ reg) h =
    let same =
      map_agrees (λ id. get id ((j, ref) ∷ reg)) (λ id. get id reg) (keys reg)
        (All-mono _ _ (keys reg) (λ id ne. ground (arith, bytes_eq_iff j id, ne)) h.0) in
    rw (bytes_eq_refl j) (ap (λ k. some ref ∷ k) (same ∙ map-keys reg h.1))

count-keys : (reg : Registry) → count reg ≡ length (keys reg)
unfolding count
count-keys [] = refl
count-keys (e ∷ reg) = ap suc (count-keys reg)

list_info-list :
    (remote_addr : ℕ → Bytes) (ds : Devices) (reg : Registry)
    → list_info remote_addr ds reg ≡ map (λ ref. info_of remote_addr (ds ref)) (list reg)
unfolding list_info list
list_info-list remote_addr ds [] = refl
list_info-list remote_addr ds (e ∷ reg) =
    ap (λ k. info_of remote_addr (ds e.1) ∷ k) (list_info-list remote_addr ds reg)

-- After any calls of Register and Unregister on a new registry, Get answers as a function that the
-- same calls change at one identifier each. There is an order of the identifiers at which this
-- function has a device, each once: Count is their number, List has their devices in that order,
-- and ListInfo tells of each of these device objects, in that order.
pub registry_refines :
    (calls : List Call) (remote_addr : ℕ → Bytes) (ds : Devices)
    → let reg = run calls new_registry in
      let f = replay calls (λ _. none) in
      (view reg ≡ f)
      × (ids : List Bytes) × IsDomain f ids
      × (count reg ≡ length ids)
      × (map some (list reg) ≡ map f ids)
      × (map some (list_info remote_addr ds reg)
          ≡ map (λ id. Option.map (λ ref. info_of remote_addr (ds ref)) (f id)) ids)
unfolding get load
registry_refines calls remote_addr ds =
    let reg = run calls new_registry in
    let (kept, same) = view-run calls new_registry tt in
    let info = λ (ref : ℕ). info_of remote_addr (ds ref) in
    let refs = sym (map-keys reg kept) ∙ ap (λ f. map f (keys reg)) same in
    (
      same,
      keys reg,
      record {
        distinct = keys-IsDistinct reg kept;
        exact = λ id.
            subst (λ f. Memᴰ id (keys reg) ↔ ((ref : ℕ) × (f id ≡ some ref))) same
              (found_of_key reg id, key_of_found reg id);
      },
      count-keys reg,
      refs,
      ap (map some) (list_info-list remote_addr ds reg)
          ∙ map-map some info (list reg)
          ∙ sym (map-map (Option.map info) some (list reg))
          ∙ ap (map (Option.map info)) refs
          ∙ map-map (Option.map info) (replay calls (λ _. none)) (keys reg),
    )
