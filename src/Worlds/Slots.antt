-- ===== src/Worlds/Slots.antt =====
-- The registry's entries and the device objects that they name.
use proxy_rfc.Base.{
  ℕ, ◌+◌, ◌<◌, ◌≡◌, refl, ap, ◌∙◌, inl, inr, Bytes, All, All-mono, Bool-cases, ◌==◌, ==_iff, arith,
}
use proxy_rfc.Device.{Device, Devices, register, unregister, put_device}
use proxy_rfc.SyncMap.Laws.{IsMap, store-IsMap, delete-IsMap, All-store, All-delete}
use proxy_rfc.Handler.{World, new_device, add_device, device_exit}

-- An entry names a device object that exists and carries the entry's identifier.
abbrev pub IsSlot : Devices → ℕ → Bytes × ℕ → Type 0
IsSlot devices next (id, ref) = (ref < next) × ((devices ref).id ≡ id)

pub record IsRegistry (w : World) : Type 0 where
  pub unique : IsMap w.registry
  pub slots : All (IsSlot w.devices w.next_ref) w.registry

-- The identifiers of the device objects stay.
abbrev pub SameIds : World → World → Type 0
SameIds w w' = (ref : ℕ) → (w'.devices ref).id ≡ (w.devices ref).id

pub move-IsRegistry :
    (w w' : World)
    → IsRegistry w
    → w'.registry ≡ w.registry
    → w'.next_ref ≡ w.next_ref
    → SameIds w w'
    → IsRegistry w'
move-IsRegistry w w' v r n same = record {
  unique = rw r v.unique;
  slots = rw (r, n) (All-mono _ _ w.registry (λ e s. (s.0, same e.1 ∙ s.1)) v.slots);
}

pub put_device-id :
    (ref : ℕ) (d : Device) (devices : Devices) (r : ℕ)
    → d.id ≡ (devices ref).id
    → (put_device ref d devices r).id ≡ (devices r).id
put_device-id ref d devices r same = elim (Bool-cases (ref == r)) [
  | inl here ↦ rw here (same ∙ ap (λ n. (devices n).id) ((==_iff ref r).0 here))
  | inr other ↦ rw other refl
]

pub add_device-IsRegistry :
    (w : World) (id : Bytes) (conn now : ℕ)
    → IsRegistry w
    → IsRegistry (add_device w (new_device id conn now))
unfolding add_device register
add_device-IsRegistry w id conn now v = record {
  unique = store-IsMap id w.next_ref w.registry v.unique;
  slots =
      All-store (IsSlot (put_device w.next_ref (new_device id conn now) w.devices) (w.next_ref + 1))
        id w.next_ref w.registry (omega arith, ground arith)
        (All-mono _ _ w.registry (λ e s. (omega (arith, s.0), ground (arith, s.0, s.1))) v.slots);
}

pub device_exit-IsRegistry : (w : World) (id : Bytes) → IsRegistry w → IsRegistry (device_exit w id)
unfolding device_exit unregister
device_exit-IsRegistry w id v = record {
  unique = delete-IsMap id w.registry v.unique;
  slots = All-delete _ id w.registry v.slots;
}
