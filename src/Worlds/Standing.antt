-- ===== src/Worlds/Standing.antt =====
-- A device from its AT+REG to the call of a client: what `handleDevice` of internal/connection has
-- set up when it waits.
use proxy_rfc.Base.{
  Option, if◌then◌else◌, ℕ, ◌≡◌, ◌≢◌, inl, inr, refl, sym, ap, subst, bytes_eq_refl, ◌∙◌, true,
  false, some, [], ◌++◌, Bytes, codes, Option-cases, Bool-cases, arith,
}
use mathlib.Core.List.{append-nil}
use proxy_rfc.Conn.{Conn, Stream}
use proxy_rfc.Conn.Open.{IsOpen, write_open_lem}
use proxy_rfc.Device.{get, is_in_session}
use proxy_rfc.Handler.{
  after_wait, device_dialled, is_dial, World, wrote, add_device, register_device, device_wait,
}
use proxy_rfc.Handler.Registration.{added, added-get, added-device, register_device-ok}
use proxy_rfc.Protocol.{ReadResult, command, failed, read_plain_at_command, write_ok}
use mathlib.Core.Option
use proxy_rfc.Session.{Conns, put_conn}
use proxy_rfc.SyncMap.Laws.{IsMap}

-- A device that can be called: registered and free, with an open connection.
pub record IsStanding (w : World) (id : Bytes) (ref conn : ℕ) (sent : Bytes) : Type 0 where
  pub named : get id w.registry ≡ some ref
  pub own_conn : (w.devices ref).conn ≡ conn
  pub is_free : is_in_session (w.devices ref) ≡ false
  pub open_conn : IsOpen (w.conns conn)
  pub told : (w.conns conn).sent ≡ sent

-- The new connection is none that an earlier registration under the identifier has.
abbrev pub IsNew : World → Bytes → ℕ → Type 0
IsNew w id conn = (old : ℕ) → get id w.registry ≡ some old → (w.devices old).conn ≢ conn

-- An OK on a connection that is open.
write_ok-open_lem :
    (c : Conn)
    → IsOpen c
    → ((write_ok c).ok ≡ true) × ((write_ok c).conn ≡ record c { sent = c.sent ++ codes "OK\r\n" })
unfolding write_ok
write_ok-open_lem c h =
    let e = write_open_lem c (codes "OK\r\n") h in (ap (λ r. r.ok) e, ap (λ r. r.conn) e)

put_conn-same : (conn : ℕ) (c : Conn) (conns : Conns) → put_conn conn c conns conn ≡ c
put_conn-same conn c conns = ground arith

module _ (now : ℕ) (w : World) (conn : ℕ) (id : Bytes) where
  added-conns : IsNew w id conn → (added now w conn id).conns conn ≡ w.conns conn
  unfolding add_device
  added-conns apart = elim (Option-cases (get id w.registry)) [
    | inl e ↦ rw e refl
    | inr (old, e) ↦ rw e (ground (arith, apart old e))
  ]

  added-manager : (added now w conn id).manager ≡ w.manager
  unfolding add_device
  added-manager = elim (Option-cases (get id w.registry)) [
    | inl e ↦ rw e refl
    | inr (old, e) ↦ rw e refl
  ]

  added-IsStanding :
      (c : Conn)
      → IsMap w.registry
      → IsOpen c
      → let w' = added now w conn id in
        IsStanding (record w' { conns = put_conn conn c w'.conns }) id w.next_ref conn c.sent
  unfolding is_in_session
  added-IsStanding c h ready =
      let same = put_conn-same conn c (added now w conn id).conns in
      record {
        named = added-get now w conn id id h ∙ rw (bytes_eq_refl id) refl;
        own_conn = ap (λ d. d.conn) (added-device now w conn id);
        is_free = ap (λ d. is_in_session d) (added-device now w conn id);
        open_conn = rw same ready;
        told = ap (λ k. k.sent) same;
      }

  pub register_device-IsStanding :
      IsMap w.registry
      → IsNew w id conn
      → IsOpen (w.conns conn)
      → IsStanding
          (register_device now w conn id).0
          id
          w.next_ref
          conn
          ((w.conns conn).sent ++ codes "OK\r\n")
        × ((register_device now w conn id).0.manager ≡ w.manager)
  register_device-IsStanding h apart ready =
      let same = added-conns apart in
      let (ok, written) = write_ok-open_lem (w.conns conn) ready in
      let e = register_device-ok now w conn id (rw same ok) in
      rw (e, same, written)
        (
          added-IsStanding (record (w.conns conn) { sent = (w.conns conn).sent ++ codes "OK\r\n" })
              h (record { not_closed = ready.not_closed; no_outcomes = ready.no_outcomes }),
          added-manager,
        )

said-IsStanding :
    (w : World) (id : Bytes) (ref conn : ℕ) (sent : Bytes)
    → IsStanding w id ref conn sent
    → IsStanding (wrote w conn (write_ok (w.conns conn))) id ref conn (sent ++ codes "OK\r\n")
said-IsStanding w id ref conn sent v =
    let (_, written) = write_ok-open_lem (w.conns conn) v.open_conn in
    let same = put_conn-same conn (write_ok (w.conns conn)).conn w.conns ∙ written in
    record {
      named = v.named;
      own_conn = v.own_conn;
      is_free = v.is_free;
      open_conn = record {
        not_closed = ap (λ k. k.closed) same ∙ v.open_conn.not_closed;
        no_outcomes = ap (λ k. k.outcomes) same ∙ v.open_conn.no_outcomes;
      };
      told = ap (λ k. k.sent) same ∙ ap (λ b. b ++ codes "OK\r\n") v.told;
    }

-- What a device is sent for what its wait has read: an OK for ATDT and ATDP.
abbrev pub dial_answer : Option ReadResult → Bytes
dial_answer (some (command c rest)) = if is_dial c.cmd then codes "OK\r\n" else []
dial_answer _ = []

quiet-IsStanding :
    (w : World) (id : Bytes) (ref conn : ℕ) (sent : Bytes)
    → IsStanding w id ref conn sent
    → IsStanding w id ref conn (sent ++ [])
quiet-IsStanding w id ref conn sent v = rw (append-nil sent) v

after_wait-IsStanding :
    (w : World) (id : Bytes) (ref conn : ℕ) (sent : Bytes) (r : ReadResult)
    → IsStanding w id ref conn sent
    → IsStanding (after_wait w conn r) id ref conn (sent ++ dial_answer (some r))
      × ((after_wait w conn r).manager ≡ w.manager)
unfolding device_dialled
after_wait-IsStanding w id ref conn sent (failed e rest) v =
    (quiet-IsStanding w id ref conn sent v, refl)
after_wait-IsStanding w id ref conn sent (command c rest) v = elim (Bool-cases (is_dial c.cmd)) [
  | inl dial ↦ rw dial (said-IsStanding w id ref conn sent v, refl)
  | inr other ↦ rw other (quiet-IsStanding w id ref conn sent v, refl)
]

pub device_wait-IsStanding :
    (since : ℕ → ℕ) (s : Stream) (w w' : World) (id : Bytes) (ref conn : ℕ) (sent : Bytes)
    → IsStanding w id ref conn sent
    → device_wait since s w conn ≡ some w'
    → IsStanding w' id ref conn (sent ++ dial_answer (read_plain_at_command since s))
      × (w'.manager ≡ w.manager)
unfolding device_wait
device_wait-IsStanding since s w w' id ref conn sent v e =
    elim (Option-cases (read_plain_at_command since s)) [
      | inl none_read ↦ absurd (cc (ap (λ o. Option.map (after_wait w conn) o) none_read, e))
      | inr (r, read) ↦
          let same : some (after_wait w conn r) ≡ some w' =
            sym (ap (λ o. Option.map (after_wait w conn) o) read) ∙ e in
          let it_is : after_wait w conn r ≡ w' = cc in
          rw read (
            subst
              (λ k.
                IsStanding k id ref conn (sent ++ dial_answer (some r)) × (k.manager ≡ w.manager))
              it_is (after_wait-IsStanding w id ref conn sent r v))
    ]
