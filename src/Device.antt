-- ===== src/Device.antt =====
-- internal/device/registry.go: devices and their registry. The registry maps an identifier to a
-- device object, which the handlers share, so a device is a reference into a store of objects.
-- The lock of a device makes each of its methods one step.
pub mod Laws
pub mod Refinement
use proxy_rfc.Base.{
  ℕ, zero, suc, Bool, true, false, Option, none, some, List, [], ◌∷◌, Bytes, length, map, ◌==◌,
  if◌then◌else◌,
}
use proxy_rfc.SyncMap
use proxy_rfc.SyncMap.{load, store, delete, values}

-- A connection and a device object are known by their references.
pub record Device : Type 0 where
  pub id : Bytes
  pub conn : ℕ
  pub registered_at : ℕ
  pub in_session : Bool
  pub session_id : Bytes
  -- `StopKeepalive` has been closed.
  pub stopped : Bool

unfoldable pub set_session : Bytes → Device → Device
set_session session d = record d { in_session = true; session_id = session }

unfoldable pub clear_session : Device → Device
clear_session d = record d { in_session = false; session_id = [] }

unfoldable pub is_in_session : Device → Bool
is_in_session d = d.in_session

-- The device objects by reference; a reference is given out once.
abbrev pub Devices : Type 0
Devices = ℕ → Device

abbrev pub put_device : ℕ → Device → Devices → Devices
put_device ref d ds r = if ref == r then d else ds r

abbrev pub Registry : Type 0
Registry = List (Bytes × ℕ)

abbrev pub new_registry : Registry
new_registry = []

unfoldable pub register : Device → ℕ → Registry → Registry
register d ref reg = store d.id ref reg

unfoldable pub unregister : Bytes → Registry → Registry
unregister id reg = delete id reg

unfoldable pub get : Bytes → Registry → Option ℕ
get id reg = load id reg

unfoldable pub list : Registry → List ℕ
list reg = values reg

unfoldable pub count : Registry → ℕ
count [] = 0
count (e ∷ reg) = suc (count reg)

pub record DeviceInfo : Type 0 where
  pub id : Bytes
  pub registered_at : ℕ
  pub in_session : Bool
  pub session_id : Bytes
  pub remote_addr : Bytes

-- `remote_addr` is what `RemoteAddr().String()` gives for a connection.
abbrev pub info_of : (ℕ → Bytes) → Device → DeviceInfo
info_of remote_addr d = record {
  id = d.id;
  registered_at = d.registered_at;
  in_session = d.in_session;
  session_id = d.session_id;
  remote_addr = remote_addr d.conn;
}

unfoldable pub list_info : (ℕ → Bytes) → Devices → Registry → List DeviceInfo
list_info remote_addr ds [] = []
list_info remote_addr ds ((id, ref) ∷ reg) =
    info_of remote_addr (ds ref) ∷ list_info remote_addr ds reg
