-- ===== src/Handler/Admission.antt =====
-- Which clients get a session, told by their token, the registry's entries and the device objects.
use mathlib.Core.List.{Memᴰ}
use mathlib.Core.List.Memᴰ.{head, tail}
use proxy_rfc.Base.{
  ℕ, ◌≡◌, ◌≢◌, ◌↔◌, ◌⊎◌, inl, inr, refl, sym, ap, subst, ◌∙◌, true, false, Option, none, some, [],
  ◌∷◌, ◌++◌, Bytes, bytes_eq, bytes_eq_iff, bytes_eq_refl, Bool-cases, Option-cases, arith,
}
use proxy_rfc.Conn.{Conn}
use proxy_rfc.Modem.{ModemState, write_modem_connect}
use proxy_rfc.Protocol.{write_ok}
use proxy_rfc.Conn.Open.{IsOpen, write_open_lem}
use proxy_rfc.Device.{Registry, get, set_session, is_in_session}
use proxy_rfc.Handler.{World, Client, client_check, client_open, write_connect}
use proxy_rfc.Handler.Clients.{
  client_check_iff, refusal, client_open_refused, client_open-check, client_start-ok, made,
  made-session, after_start, after_start-devices, after_start-manager,
}
use proxy_rfc.Handler.Token.{Names, parse_token_iff}
use proxy_rfc.Session.{Session, Manager, get_session, create, put_conn}
use proxy_rfc.SyncMap.{load, store}
use proxy_rfc.SyncMap.Laws.{IsMap, load_absent, load-store}

entry_of_found :
    (reg : Registry) (id : Bytes) (ref : ℕ) → get id reg ≡ some ref → Memᴰ (id, ref) reg
unfolding get load
entry_of_found [] id ref e = absurd (cc)
entry_of_found ((j, other) ∷ reg) id ref e = elim (Bool-cases (bytes_eq j id)) [
  | inl q ↦ let same : other ≡ ref = ground arith in head (rw ((bytes_eq_iff j id).0 q, same) refl)
  | inr q ↦ tail (entry_of_found reg id ref (rw q at e))
]

found_of_entry :
    (reg : Registry) (id : Bytes) (ref : ℕ) → IsMap reg → Memᴰ (id, ref) reg → get id reg ≡ some ref
unfolding get load
found_of_entry [] id ref h m = elim m [ ]
found_of_entry ((j, other) ∷ reg) id ref h m = elim m [
  | head e ↦
      let here : id ≡ j = ap (λ p. p.0) e in
      let same : ref ≡ other = ap (λ p. p.1) e in rw (here, same, bytes_eq_refl j) refl
  | tail m' ↦
      let found = found_of_entry reg id ref h.1 m' in
      elim (Bool-cases (bytes_eq j id)) [
        | inl q ↦
            let none_there = load_absent j reg h.0 in
            absurd (cc ((bytes_eq_iff j id).0 q, none_there, found))
        | inr q ↦ rw q found
      ]
]

-- A token names a device object that is registered under the identifier in it, and is free.
abbrev pub IsCallable : Bytes → World → Bytes → ℕ → Type 0
IsCallable auth w token ref =
    (id : Bytes) × Names auth token id
    × (id ≢ [])
    × Memᴰ (id, ref) w.registry
    × ((w.devices ref).in_session ≡ false)

-- In a registry with distinct keys a client passes the check, and is given a device object, exactly
-- if its token names an identifier that is not empty, bare where no token is configured and
-- otherwise behind the configured one, which holds no "+", and a "+"; the registry holds the object
-- under this identifier; and the object is in no session.
pub client_passes_iff :
    (auth : Bytes) (w : World) (c : Client) (ref : ℕ)
    → IsMap w.registry
    → (client_check auth w c ≡ some ref) ↔ IsCallable auth w c.at_command.param ref
unfolding is_in_session
client_passes_iff auth w c ref h = (
  λ e.
      let (id, named, found, free) = (client_check_iff auth w c ref).0 e in
      let (names, some_id) = (parse_token_iff auth c.at_command.param id).0 named in
      (id, names, some_id, entry_of_found w.registry id ref found, free),
  λ t.
      let (id, names, some_id, entry, free) = t in
      (client_check_iff auth w c ref).1 (
        id,
        (parse_token_iff auth c.at_command.param id).1 (names, some_id),
        found_of_entry w.registry id ref h entry,
        free,
      ),
)

-- A session as it stands in a world after its start: its device is taken.
abbrev pub IsStarted : World → Client → ℕ → World × Option Session → Type 0
IsStarted w c ref (w', o) =
    (s : Session) × (o ≡ some s)
    × (s.client_conn ≡ c.conn)
    × (s.device_conn ≡ (w.devices ref).conn)
    × ((w'.devices ref).in_session ≡ true)
    × ((w'.devices ref).session_id ≡ s.id)
    × (get_session w'.manager s.id ≡ some s)

write_connect-ok :
    (o : Option ModemState) (conn : Conn) → IsOpen conn → (write_connect o conn).ok ≡ true
unfolding write_connect write_ok write_modem_connect
write_connect-ok none conn h = ap (λ w. w.ok) (write_open_lem conn _ h)
write_connect-ok (some m) conn h = ap (λ w. w.ok) (write_open_lem conn _ h)

created_is_found :
    (m : Manager) (now : ℕ) (id : Bytes) (client device : ℕ)
    → let made = create m now id client device in get_session made.0 made.1.id ≡ some made.1
unfolding create get_session
created_is_found m now id client device =
    let s = (create m now id client device).1 in
    let found : load s.id (store s.id s m.sessions) ≡ some s =
      load-store s.id s.id s m.sessions ∙ rw (bytes_eq_refl s.id) refl in
    elim (Bool-cases m.has_callbacks) [ inl on ↦ rw on found | inr off ↦ rw off found ]

made-fields :
    (now : ℕ) (w : World) (c : Client) (id : Bytes) (ref : ℕ)
    → let s = (made now w c id ref).1 in
      (s.client_conn ≡ c.conn) × (s.device_conn ≡ (w.devices ref).conn)
unfolding create
made-fields now w c id ref = rw (made-session now w c id ref) (refl, refl)

made_is_found :
    (now : ℕ) (w : World) (c : Client) (id : Bytes) (ref : ℕ)
    → let s = (made now w c id ref).1 in
      get_session (after_start now w c id ref).manager s.id ≡ some s
made_is_found now w c id ref =
    rw (after_start-manager now w c id ref, made-session now w c id ref)
      (created_is_found w.manager now id c.conn (w.devices ref).conn)

marked :
    (now : ℕ) (w : World) (c : Client) (id : Bytes) (ref : ℕ)
    → (((after_start now w c id ref).devices ref).in_session ≡ true)
      × (((after_start now w c id ref).devices ref).session_id ≡ (made now w c id ref).1.id)
unfolding set_session
marked now w c id ref =
    let e = after_start-devices now w c id ref in
    (ap (λ d. d.in_session) e, ap (λ d. d.session_id) e)

started :
    (auth : Bytes) (now : ℕ) (w : World) (c : Client) (ref : ℕ)
    → IsOpen (w.conns c.conn)
    → client_check auth w c ≡ some ref
    → IsStarted w c ref (client_open auth now w c)
started auth now w c ref h e =
    let (id, _, opened) = client_open-check auth now w c ref e in
    let all =
      opened ∙ client_start-ok now w c id ref (write_connect-ok c.modem (w.conns c.conn) h) in
    let (client, device) = made-fields now w c id ref in
    let (taken, by) = marked now w c id ref in
    subst (IsStarted w c ref) (sym all)
      ((made now w c id ref).1, refl, client, device, taken, by, made_is_found now w c id ref)

-- A client whose connection is open and takes all writes, in a registry with distinct keys, either
-- gets a session or is refused. It gets one exactly where its token names a registered device that
-- is free: the session has both connections, the device is taken by it, and the session is found
-- under its identifier. Otherwise there is no such device, and the client is sent ERROR or, if it
-- has dialled, NO CARRIER in the modem's mode, and nothing else of the world changes.
pub client_open_decides :
    (auth : Bytes) (now : ℕ) (w : World) (c : Client)
    → IsMap w.registry
    → IsOpen (w.conns c.conn)
    → ((ref : ℕ) × IsCallable auth w c.at_command.param ref
        × IsStarted w c ref (client_open auth now w c))
      ⊎ (((ref : ℕ) → IsCallable auth w c.at_command.param ref → ⊥)
          × (client_open auth now w c ≡ (
            record w {
              conns =
                  put_conn c.conn
                    (record (w.conns c.conn) { sent = (w.conns c.conn).sent ++ refusal c.modem })
                    w.conns;
            },
            none,
          )))
client_open_decides auth now w c m h = elim (Option-cases (client_check auth w c)) [
  | inr (ref, e) ↦ inl (ref, (client_passes_iff auth w c ref m).0 e, started auth now w c ref h e)
  | inl e ↦ inr (
    λ ref t. absurd (cc ((client_passes_iff auth w c ref m).1 t, e)),
    client_open_refused auth now w c e h,
  )
]
