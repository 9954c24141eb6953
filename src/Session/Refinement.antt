-- ===== src/Session/Refinement.antt =====
-- The session manager as its clients see it: a count and a function from identifiers to sessions.
use mathlib.Core.Path.{fun_ext}
use proxy_rfc.Base.{
  ℕ, ◌+◌, ◌^◌, ◌<◌, ◌≡◌, refl, ap, ◌∙◌, Bool, false, Option, none, some, List, [], ◌∷◌, Bytes,
  length, arith,
}
use proxy_rfc.SyncMap.{load}
use proxy_rfc.SyncMap.Laws.{update}
use proxy_rfc.Session.{
  Session, Manager, create, end_session, get_session, session_id, new_manager, set_callbacks,
  next_count, new_session,
}
use proxy_rfc.Session.Lifecycle.{IsManaged, create_lem, create-counter, end_session_lem}

-- The calls that change a manager.
pub data Call : Type 0 where
  creates : ℕ → Bytes → ℕ → ℕ → Call
  ends : Bytes → Call

abbrev pub run : List Call → Manager → Manager
run [] m = m
run (creates now device_id client device ∷ calls) m =
    run calls (create m now device_id client device).0
run (ends id ∷ calls) m = run calls (end_session m id)

-- What a client sees of the manager.
pub record Spec : Type 0 where
  pub debug : Bool
  pub idle_timeout : ℕ
  pub given : ℕ
  pub active : Bytes → Option Session

abbrev pub view : Manager → Spec
view m = record {
  debug = m.debug;
  idle_timeout = m.idle_timeout;
  given = m.counter;
  active = λ id. get_session m id;
}

-- A session gets the next number that has not been given out, with no wrap-around.
abbrev pub fresh : Spec → ℕ → Bytes → ℕ → ℕ → Session
fresh spec now device_id client device = record {
  id = session_id now (spec.given + 1);
  device_id = device_id;
  client_conn = client;
  device_conn = device;
  started_at = now;
  bytes_in = 0;
  bytes_out = 0;
  debug = spec.debug;
  idle_timeout = spec.idle_timeout;
  ended = false;
}

abbrev pub replay : List Call → Spec → Spec
replay [] spec = spec
replay (creates now device_id client device ∷ calls) spec =
    let s = fresh spec now device_id client device in
    replay calls (record spec { given = spec.given + 1; active = update s.id (some s) spec.active })
replay (ends id ∷ calls) spec = replay calls (record spec { active = update id none spec.active })

Spec_eq :
    (p q : Spec)
    → p.debug ≡ q.debug
    → p.idle_timeout ≡ q.idle_timeout
    → p.given ≡ q.given
    → p.active ≡ q.active
    → p ≡ q
Spec_eq p q a b c d = λ i. record { debug = a i; idle_timeout = b i; given = c i; active = d i }

create-fresh :
    (m : Manager) (now : ℕ) (device_id : Bytes) (client device : ℕ)
    → next_count m ≡ m.counter + 1
    → (create m now device_id client device).1 ≡ fresh (view m) now device_id client device
unfolding create new_session
create-fresh m now device_id client device up = rw up refl

create-settings :
    (m : Manager) (now : ℕ) (device_id : Bytes) (client device : ℕ)
    → ((create m now device_id client device).0.debug ≡ m.debug)
      × ((create m now device_id client device).0.idle_timeout ≡ m.idle_timeout)
unfolding create
create-settings m now device_id client device = (ground arith, ground arith)

view-create :
    (m : Manager) (now : ℕ) (device_id : Bytes) (client device : ℕ)
    → IsManaged m
    → m.counter + 1 < 2 ^ 64
    → let s = fresh (view m) now device_id client device in
      view (create m now device_id client device).0
      ≡ record (view m) { given = m.counter + 1; active = update s.id (some s) (view m).active }
view-create m now device_id client device v room =
    let (_, _, found, _, _) = create_lem m now device_id client device v room in
    let (same_debug, same_timeout) = create-settings m now device_id client device in
    let up : next_count m ≡ m.counter + 1 = omega arith in
    Spec_eq _ _ same_debug same_timeout (create-counter m now device_id client device ∙ up) (
      fun_ext (λ id. found id)
      ∙ ap (λ s. update s.id (some s) (view m).active)
          (create-fresh m now device_id client device up))

end_session-settings :
    (m : Manager) (id : Bytes)
    → ((end_session m id).debug ≡ m.debug)
      × ((end_session m id).idle_timeout ≡ m.idle_timeout)
      × ((end_session m id).counter ≡ m.counter)
unfolding end_session
end_session-settings m id = (ground arith, ground arith, ground arith)

view-end_session :
    (m : Manager) (id : Bytes)
    → IsManaged m
    → view (end_session m id) ≡ record (view m) { active = update id none (view m).active }
view-end_session m id v =
    let (_, found, _, _) = end_session_lem m id v in
    let (same_debug, same_timeout, same_count) = end_session-settings m id in
    Spec_eq _ _ same_debug same_timeout same_count (fun_ext (λ other. found other))

view-run :
    (calls : List Call) (m : Manager)
    → IsManaged m
    → m.counter + length calls < 2 ^ 64
    → IsManaged (run calls m) × (view (run calls m) ≡ replay calls (view m))
view-run [] m v room = (v, refl)
view-run (creates now device_id client device ∷ calls) m v room =
    let (kept, _, _, _, _) = create_lem m now device_id client device v (omega arith) in
    let up : next_count m ≡ m.counter + 1 = omega arith in
    let (managed, same) =
      view-run calls (create m now device_id client device).0 kept
        (omega (arith, create-counter m now device_id client device, up)) in
    (managed, same ∙ ap (replay calls) (view-create m now device_id client device v (omega arith)))
view-run (ends id ∷ calls) m v room =
    let (kept, _, _, _) = end_session_lem m id v in
    let (_, _, same_count) = end_session-settings m id in
    let (managed, same) = view-run calls (end_session m id) kept (omega (arith, same_count)) in
    (managed, same ∙ ap (replay calls) (view-end_session m id v))

-- After any fewer than 2 ^ 64 calls of Create and End on a new manager with its callbacks set, the
-- manager is well formed, and its settings, its count and what Get answers are those of a function
-- from identifiers to sessions that the same calls change at one identifier each, where each
-- created session takes the next number.
pub manager_refines :
    (calls : List Call) (debug : Bool) (idle_timeout : ℕ)
    → length calls < 2 ^ 64
    → let m = set_callbacks (new_manager debug idle_timeout) in
      IsManaged (run calls m)
      × (view (run calls m)
          ≡ replay calls (record {
            debug = debug;
            idle_timeout = idle_timeout;
            given = 0;
            active = λ _. none;
          }))
unfolding set_callbacks new_manager get_session load
manager_refines calls debug idle_timeout room =
    view-run calls (set_callbacks (new_manager debug idle_timeout))
      (record { unique = tt; entries = tt; balanced = λ _. refl }) (omega arith)
