-- ===== src/Tests/Sessions.antt =====
-- The registry and the session manager at concrete contents.
use proxy_rfc.Base.{
  ℕ, ◌<◌, ◌^◌, ◌+◌, ◌≡◌, refl, false, none, some, [], ◌∷◌, Bytes, codes, bytes_eq, if◌then◌else◌,
  arith,
}
use proxy_rfc.Device.{Device, Registry, register, unregister, get, count}
use proxy_rfc.Device.Laws.{get-register, get-unregister, count_register}
use proxy_rfc.Session.{
  Manager, new_manager, set_callbacks, create, end_session, get_session, count_sessions, session_id,
}
use proxy_rfc.Session.Ids.{session_id_injective}
use proxy_rfc.Session.Lifecycle.{IsManaged, create_lem, end_session_lem}
use proxy_rfc.SyncMap.Laws.{found}

abbrev meter : Device
meter = record {
  id = codes "meter";
  conn = 7;
  registered_at = 1700000000;
  in_session = false;
  session_id = [];
  stopped = false;
}

abbrev registered : Registry
registered = (codes "plc", 0) ∷ (codes "meter", 1) ∷ []

get-register_run : get (codes "meter") (register meter 2 registered) ≡ some 2
unfolding bytes_eq
get-register_run = get-register meter 2 (codes "meter") registered

get-unregister_run : get (codes "plc") (unregister (codes "meter") registered) ≡ some 0
unfolding bytes_eq get proxy_rfc.SyncMap.load
get-unregister_run = get-unregister (codes "meter") (codes "plc") registered (ground arith)

count_register_run :
    (count (register meter 2 registered) + 1 ≡ 3)
    × (count (unregister (codes "meter") registered) + 1 ≡ 2)
unfolding get count proxy_rfc.SyncMap.load bytes_eq
count_register_run = count_register meter 2 registered

-- A manager with callbacks and one session.
abbrev fresh : Manager
fresh = set_callbacks (new_manager false 60)

IsManaged-fresh : IsManaged fresh
unfolding set_callbacks new_manager
IsManaged-fresh = record { unique = tt; entries = tt; balanced = λ _. refl }

fresh_room : fresh.counter + 1 < 2 ^ 64
unfolding set_callbacks new_manager
fresh_room = ground arith

names_session : session_id 1700000000 1 ≡ codes "sess_1700000000_1"
unfolding session_id proxy_rfc.Decimal.decimal
names_session = refl

session_id_injective_run : (◌≡◌ {A = ℕ} 1700000000 1700000000) × (◌≡◌ {A = ℕ} 12 12)
session_id_injective_run = session_id_injective 1700000000 12 1700000000 12 refl

create_lem_run :
    let s = (create fresh 1700000000 (codes "meter") 3 7).1 in
    let m' = (create fresh 1700000000 (codes "meter") 3 7).0 in
    IsManaged m'
    × (get_session fresh s.id ≡ none)
    × ((id : Bytes)
        → get_session m' id ≡ (if bytes_eq s.id id then some s else get_session fresh id))
    × (count_sessions m' ≡ count_sessions fresh + 1)
    × ((s.device_id ≡ codes "meter") × (s.client_conn ≡ 3) × (s.device_conn ≡ 7))
create_lem_run = create_lem fresh 1700000000 (codes "meter") 3 7 IsManaged-fresh fresh_room

abbrev running : Manager
running = (create fresh 1700000000 (codes "meter") 3 7).0

end_session_lem_example :
    let m' = end_session running (codes "sess_1700000000_1") in
    IsManaged m'
    × ((other : Bytes)
        → get_session m' other ≡ (
            if bytes_eq (codes "sess_1700000000_1") other then none else get_session running other))
    × (count_sessions m' + found (get_session running (codes "sess_1700000000_1"))
        ≡ count_sessions running)
    × (end_session m' (codes "sess_1700000000_1") ≡ m')
end_session_lem_example =
    end_session_lem running (codes "sess_1700000000_1")
      (create_lem fresh 1700000000 (codes "meter") 3 7 IsManaged-fresh fresh_room).0

ends_running : count_sessions (end_session running (codes "sess_1700000000_1")) ≡ 0
unfolding count_sessions end_session proxy_rfc.SyncMap.load create set_callbacks
    proxy_rfc.SyncMap.store new_manager bytes_eq session_id proxy_rfc.Decimal.decimal
    proxy_rfc.SyncMap.delete
ends_running = refl
