-- ===== src/Tests/Refinements.antt =====
-- Runs of calls on the registry and on the session manager.
use proxy_rfc.Base.{◌≡◌, false, none, List, [], ◌∷◌, Bytes, codes, ℕ, length, map, some, arith}
use mathlib.Core.Option
use proxy_rfc.Device
use proxy_rfc.Device.{Device, new_registry, count, list, list_info, info_of}
use proxy_rfc.Device.Refinement.{registers, unregisters, IsDomain, registry_refines}
use proxy_rfc.Session.{new_manager, set_callbacks}
use proxy_rfc.Session.Lifecycle.{IsManaged}
use proxy_rfc.Session
use proxy_rfc.Session.Refinement.{creates, ends, manager_refines}

abbrev named : Bytes → Device
named id = record {
  id = id;
  conn = 7;
  registered_at = 1700000000;
  in_session = false;
  session_id = [];
  stopped = false;
}

abbrev comes_and_goes : List Device.Refinement.Call
comes_and_goes =
    registers (named (codes "plc")) 0
    ∷ registers (named (codes "meter")) 1
    ∷ unregisters (codes "plc")
    ∷ []

abbrev the_meter : ℕ → Device
the_meter ref = named (codes "meter")

registry_refines_example :
    let reg = Device.Refinement.run comes_and_goes new_registry in
    let f = Device.Refinement.replay comes_and_goes (λ _. none) in
    (Device.Refinement.view reg ≡ f)
    × (ids : List Bytes) × IsDomain f ids
    × (count reg ≡ length ids)
    × (map some (list reg) ≡ map f ids)
    × (map some (list_info (λ _. []) the_meter reg)
        ≡ map (λ id. Option.map (λ ref. info_of (λ _. []) (the_meter ref)) (f id)) ids)
registry_refines_example = registry_refines comes_and_goes (λ _. []) the_meter

abbrev two_sessions : List Session.Refinement.Call
two_sessions =
    creates 1700000000 (codes "meter") 3 7
    ∷ ends (codes "sess_1700000000_1")
    ∷ creates 1700000001 (codes "meter") 4 7
    ∷ []

manager_refines_example :
    IsManaged (Session.Refinement.run two_sessions (set_callbacks (new_manager false 60)))
    × (Session.Refinement.view
          (Session.Refinement.run two_sessions (set_callbacks (new_manager false 60)))
        ≡ Session.Refinement.replay two_sessions
            (record { debug = false; idle_timeout = 60; given = 0; active = λ _. none }))
manager_refines_example = manager_refines two_sessions false 60 (omega arith)
