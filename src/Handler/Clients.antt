-- ===== src/Handler/Clients.antt =====
-- A client's way to a session.
use proxy_rfc.Forward.{forward_late, forward, preset_buffer}
use proxy_rfc.Base.{
  ℕ, Option, codes, ◌++◌, if◌then◌else◌, ◌≡◌, ◌↔◌, ◌≢◌, inl, inr, refl, ap, ◌∙◌, true, false, none,
  some, Bytes, Bool-cases, Option-cases, arith,
}
use proxy_rfc.Conn.{Conn, buffered}
use proxy_rfc.Conn.Open.{IsOpen, write_open_lem}
use proxy_rfc.Modem.{ModemState, write_modem_no_carrier}
use proxy_rfc.Protocol.{write_error}
use proxy_rfc.Device.{Device, get, set_session, is_in_session}
use proxy_rfc.Session.{Session, create, put_conn}
use proxy_rfc.Handler.{
  World, wrote, parse_token, Client, client_check, client_refuse, write_client_error, write_connect,
  client_create, session_cleanup, client_forward, client_start, client_open,
}

pub client_check-some :
    (auth : Bytes) (w : World) (c : Client) (ref : ℕ)
    → client_check auth w c ≡ some ref
    → (id : Bytes) × (parse_token auth c.at_command.param ≡ some id)
      × (get id w.registry ≡ some ref)
      × (is_in_session (w.devices ref) ≡ false)
unfolding client_check
client_check-some auth w c ref e = elim (Option-cases (parse_token auth c.at_command.param)) [
  | inl p ↦ absurd (ground (arith, p))
  | inr (id, p) ↦ (id, p, ground (arith, p), ground (arith, p))
]

-- What passes the check: the client's token names a device, which is registered and free.
pub client_check_iff :
    (auth : Bytes) (w : World) (c : Client) (ref : ℕ)
    → (client_check auth w c ≡ some ref) ↔ (
        (id : Bytes) × (parse_token auth c.at_command.param ≡ some id)
        × (get id w.registry ≡ some ref)
        × (is_in_session (w.devices ref) ≡ false))
unfolding client_check
client_check_iff auth w c ref = (client_check-some auth w c ref, λ h. rw h.1 (rw h.2 (rw h.3)))

-- The answer to a client that is refused: ERROR, or NO CARRIER for one that has dialled, in words
-- or as a number.
abbrev pub refusal : Option ModemState → Bytes
refusal none = codes "ERROR\r\n"
refusal (some m) = if m.verbose then codes "\r\nNO CARRIER\r\n" else codes "3\r"

write_client_error-refusal :
    (o : Option ModemState) (conn : Conn)
    → IsOpen conn
    → (write_client_error o conn).conn ≡ record conn { sent = conn.sent ++ refusal o }
unfolding write_client_error write_error write_modem_no_carrier
write_client_error-refusal none conn h = ap (λ w. w.conn) (write_open_lem conn (refusal none) h)
write_client_error-refusal (some m) conn h =
    ap (λ w. w.conn) (write_open_lem conn (refusal (some m)) h)

-- A client that does not pass the check gets no session: on its connection, where writes succeed,
-- it is sent one answer, ERROR or, if it has dialled, NO CARRIER in the modem's mode; and nothing
-- else of the world changes.
pub client_open_refused :
    (auth : Bytes) (now : ℕ) (w : World) (c : Client)
    → client_check auth w c ≡ none
    → IsOpen (w.conns c.conn)
    → client_open auth now w c ≡ (
      record w {
        conns =
            put_conn c.conn
              (record (w.conns c.conn) { sent = (w.conns c.conn).sent ++ refusal c.modem })
              w.conns;
      },
      none,
    )
unfolding client_open client_refuse
client_open_refused auth now w c e h =
    let answer = write_client_error-refusal c.modem (w.conns c.conn) h in
    elim (Option-cases (parse_token auth c.at_command.param)) [
      | inl p ↦ rw p (rw answer refl)
      | inr (id, p) ↦ rw (p, e) (rw answer refl)
    ]

module _ (now : ℕ) (w : World) (c : Client) (id : Bytes) (ref : ℕ) where
  pub made : World × Session
  made = client_create now w c id ref

  -- The two ways of the answer: it goes out and the data are forwarded, or all is undone.
  pub client_start-ok :
      (write_connect c.modem (w.conns c.conn)).ok ≡ true
      → client_start now w c id ref ≡ (
        client_forward
            (wrote made.0 c.conn (write_connect c.modem (w.conns c.conn)))
            c
            (w.devices ref).conn,
        some made.1,
      )
  unfolding made client_start client_create
  client_start-ok ok = rw ok

  pub client_start-failed :
      (write_connect c.modem (w.conns c.conn)).ok ≡ false
      → client_start now w c id ref ≡ (
        session_cleanup (wrote made.0 c.conn (write_connect c.modem (w.conns c.conn))) made.1 ref,
        none,
      )
  unfolding made client_start client_create
  client_start-failed bad = rw bad

  abbrev pub after_start : World
  after_start =
      client_forward (wrote made.0 c.conn (write_connect c.modem (w.conns c.conn))) c
        (w.devices ref).conn

  -- A session runs only if the answer went out, and then it is the one that was made.
  pub client_start-some :
      {s : Session}
      → (client_start now w c id ref).1 ≡ some s
      → (client_start now w c id ref ≡ (after_start, some made.1))
        × (s ≡ made.1)
        × ((write_connect c.modem (w.conns c.conn)).ok ≡ true)
  client_start-some {s} e = elim (Bool-cases (write_connect c.modem (w.conns c.conn)).ok) [
    | inr bad ↦
        let q : (client_start now w c id ref).1 ≡ none = ap (λ p. p.1) (client_start-failed bad) in
        absurd (cc)
    | inl ok ↦
        let q : (client_start now w c id ref).1 ≡ some made.1 =
          ap (λ p. p.1) (client_start-ok ok) in
        (client_start-ok ok, cc, ok)
  ]

  pub after_start-devices : after_start.devices ref ≡ set_session made.1.id (w.devices ref)
  unfolding client_forward client_create made
  after_start-devices = ground arith

  pub after_start-conns :
      c.conn ≢ (w.devices ref).conn
      → after_start.conns (w.devices ref).conn
        ≡ forward_late
            (buffered c.unread)
            (forward (preset_buffer c.at_command) (w.conns (w.devices ref).conn))
  unfolding client_forward client_create made
  after_start-conns apart = ground arith

  pub after_start-client :
      c.conn ≢ (w.devices ref).conn
      → after_start.conns c.conn ≡ (write_connect c.modem (w.conns c.conn)).conn
  unfolding client_forward client_create made
  after_start-client apart = ground arith

  pub after_start-registry : after_start.registry ≡ w.registry
  unfolding client_forward client_create made
  after_start-registry = refl

  pub after_start-manager :
      after_start.manager ≡ (create w.manager now id c.conn (w.devices ref).conn).0
  unfolding client_forward client_create made
  after_start-manager = refl

  pub made-session : made.1 ≡ (create w.manager now id c.conn (w.devices ref).conn).1
  unfolding client_create made
  made-session = refl

pub client_open-check :
    (auth : Bytes) (now : ℕ) (w : World) (c : Client) (ref : ℕ)
    → client_check auth w c ≡ some ref
    → (id : Bytes) × (parse_token auth c.at_command.param ≡ some id)
      × (client_open auth now w c ≡ client_start now w c id ref)
unfolding client_open
client_open-check auth now w c ref e =
    let (id, p, _, _) = client_check-some auth w c ref e in (id, p, rw (p, e))

client_open-some :
    (auth : Bytes) (now : ℕ) (w : World) (c : Client) (id : Bytes) {s : Session}
    → parse_token auth c.at_command.param ≡ some id
    → (client_open auth now w c).1 ≡ some s
    → (ref : ℕ) × (client_check auth w c ≡ some ref)
      × (get id w.registry ≡ some ref)
      × (client_open auth now w c ≡ client_start now w c id ref)
unfolding client_open
client_open-some auth now w c id p e = elim (Option-cases (client_check auth w c)) [
  | inl r ↦ absurd (ground (arith, p, r, e))
  | inr (ref, r) ↦
      let (id', p', found, _) = client_check-some auth w c ref r in
      let same : id' ≡ id = cc in (ref, r, rw (← same) found, rw (p, r))
]

marked_is_busy :
    (auth : Bytes) (w : World) (other : Client) (id session : Bytes) (ref : ℕ) (d : Device)
    → parse_token auth other.at_command.param ≡ some id
    → get id w.registry ≡ some ref
    → w.devices ref ≡ set_session session d
    → client_check auth w other ≡ none
unfolding client_check is_in_session set_session
marked_is_busy auth w other id session ref d q found marked = rw (q, found, marked)

-- Where a client's `client_open` gave a session, the world it leaves lets no client through whose
-- token names the same device.
pub client_open_exclusive :
    (auth : Bytes) (now : ℕ) (w : World) (c other : Client) (id : Bytes) {s : Session}
    → parse_token auth c.at_command.param ≡ some id
    → parse_token auth other.at_command.param ≡ some id
    → (client_open auth now w c).1 ≡ some s
    → client_check auth (client_open auth now w c).0 other ≡ none
client_open_exclusive auth now w c other id {s} p q e =
    let (ref, _, found, opened) = client_open-some auth now w c id p e in
    let (started, _, _) = client_start-some now w c id ref (rw opened at e) in
    rw (opened ∙ started) (
      marked_is_busy auth (after_start now w c id ref) other id (made now w c id ref).1.id ref
        (w.devices ref) q (rw (after_start-registry now w c id ref) found)
        (after_start-devices now w c id ref))
