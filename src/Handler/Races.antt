-- ===== src/Handler/Races.antt =====
-- Handlers that interleave: the check that a device is free and its mark are two steps.
use proxy_rfc.Base.{
  ℕ, ◌+◌, ◌^◌, ◌<◌, ◌≡◌, ◌≢◌, inl, inr, ap, sym, ◌∙◌, false, none, some, Bytes, bytes_eq,
  bytes_eq_iff, bytes_eq_refl, if◌then◌else◌, Bool-cases, arith,
}
use proxy_rfc.Session.{Session, create, get_session}
use proxy_rfc.Session.Lifecycle.{IsManaged, create_lem, create-counter}
use proxy_rfc.Handler.{World, Client, client_check, client_start}
use proxy_rfc.Handler.Clients.{client_start-some, after_start-manager, made-session}

-- The session of a start, found in the manager that the start leaves.
pub start-session :
    (now : ℕ) (w : World) (c : Client) (id : Bytes) (ref : ℕ) {s : Session}
    → IsManaged w.manager
    → w.manager.counter + 1 < 2 ^ 64
    → (client_start now w c id ref).1 ≡ some s
    → let m' = (client_start now w c id ref).0.manager in
      IsManaged m'
      × (get_session w.manager s.id ≡ none)
      × ((other : Bytes)
          → get_session m' other
            ≡ (if bytes_eq s.id other then some s else get_session w.manager other))
      × (s.device_id ≡ id)
start-session now w c id ref {s} v room e =
    let (started, same, _) = client_start-some now w c id ref e in
    let left : (client_start now w c id ref).0.manager
        ≡ (create w.manager now id c.conn (w.devices ref).conn).0 =
      ap (λ p. p.0.manager) started ∙ after_start-manager now w c id ref in
    let (managed, fresh, lookups, _, (of_device, _, _)) =
      create_lem w.manager now id c.conn (w.devices ref).conn v room in
    rw (same ∙ made-session now w c id ref, left) (managed, fresh, lookups, of_device)

-- A start uses up one count.
start_counter :
    (now : ℕ) (w : World) (c : Client) (id : Bytes) (ref : ℕ) {s : Session}
    → w.manager.counter + 2 < 2 ^ 64
    → (client_start now w c id ref).1 ≡ some s
    → (client_start now w c id ref).0.manager.counter + 1 < 2 ^ 64
start_counter now w c id ref room e =
    let (started, _, _) = client_start-some now w c id ref e in
    let left : (client_start now w c id ref).0.manager.counter
        ≡ (create w.manager now id c.conn (w.devices ref).conn).0.counter =
      ap (λ p. p.0.manager.counter) started
      ∙ ap (λ m. m.counter) (after_start-manager now w c id ref) in
    omega (arith, left, create-counter w.manager now id c.conn (w.devices ref).conn)

not_eq : (a b : Bytes) → a ≢ b → bytes_eq a b ≡ false
not_eq a b ne = elim (Bool-cases (bytes_eq a b)) [
  | inl e ↦ absurd (ne ((bytes_eq_iff a b).0 e))
  | inr e ↦ e
]

-- In a well formed manager with two counts left, where two clients were both let through before
-- either was started, and both starts gave a session, the two sessions are different, both are
-- active, and both are with the same device: the first start does not stop the second.
pub double_booking :
    (auth : Bytes) (now later : ℕ) (w : World) (c c' : Client) (id : Bytes) (ref : ℕ)
    {s s' : Session}
    → IsManaged w.manager
    → w.manager.counter + 2 < 2 ^ 64
    → client_check auth w c ≡ some ref
    → client_check auth w c' ≡ some ref
    → (client_start now w c id ref).1 ≡ some s
    → (client_start later (client_start now w c id ref).0 c' id ref).1 ≡ some s'
    → let m = (client_start later (client_start now w c id ref).0 c' id ref).0.manager in
      (get_session m s.id ≡ some s)
      × (get_session m s'.id ≡ some s')
      × (s.id ≢ s'.id)
      × (s.device_id ≡ id)
      × (s'.device_id ≡ id)
double_booking auth now later w c c' id ref {s} {s'} v room e e' r r' =
    let (managed, _, found, of_device) = start-session now w c id ref v (omega arith) r in
    let w' = (client_start now w c id ref).0 in
    let (_, fresh, found', of_device') =
      start-session later w' c' id ref managed (start_counter now w c id ref (omega arith) r) r' in
    let here : get_session w'.manager s.id ≡ some s = found s.id ∙ rw (bytes_eq_refl s.id) in
    let differ : s.id ≢ s'.id = λ q. absurd (cc) in
    (
      found' s.id ∙ rw (not_eq s'.id s.id (λ q. differ (sym q))) here,
      found' s'.id ∙ rw (bytes_eq_refl s'.id),
      differ,
      of_device,
      of_device',
    )
