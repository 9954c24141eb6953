-- ===== src/Device/Laws.antt =====
-- The answers of the registry after each of its operations.
use proxy_rfc.Base.{
  ℕ, suc, ◌+◌, ◌≡◌, refl, ap, none, some, [], ◌∷◌, Bytes, bytes_eq, length, if◌then◌else◌,
}
use proxy_rfc.SyncMap.{store, delete}
use proxy_rfc.SyncMap.Laws.{IsMap, load-store, load-delete, length-store, length-delete, found}
use proxy_rfc.Device.{Device, Registry, register, unregister, get, count}

-- Get after Register and Unregister: the last device registered under an identifier is found until
-- that identifier is unregistered, and no other identifier is touched.
pub get-register :
    (d : Device) (ref : ℕ) (id : Bytes) (reg : Registry)
    → get id (register d ref reg) ≡ (if bytes_eq d.id id then some ref else get id reg)
unfolding get register
get-register d ref id reg = load-store d.id id ref reg

pub get-unregister :
    (old id : Bytes) (reg : Registry)
    → IsMap reg
    → get id (unregister old reg) ≡ (if bytes_eq old id then none else get id reg)
unfolding get unregister
get-unregister old id reg h = load-delete old id reg h

pub count-length : (reg : Registry) → count reg ≡ length reg
unfolding count
count-length [] = refl
count-length (e ∷ reg) = ap suc (count-length reg)

-- Registering under a new identifier makes the count one larger, under a known one it replaces the
-- device; unregistering a known identifier makes the count one smaller, an unknown one changes
-- nothing in it.
pub count_register :
    (d : Device) (ref : ℕ) (reg : Registry)
    → (count (register d ref reg) + found (get d.id reg) ≡ count reg + 1)
      × (count (unregister d.id reg) + found (get d.id reg) ≡ count reg)
unfolding get register unregister
count_register d ref reg = (
  rw (count-length (store d.id ref reg), count-length reg) (length-store d.id ref reg),
  rw (count-length (delete d.id reg), count-length reg) (length-delete d.id reg),
)
