-- ===== src/Handler/Endings.antt =====
-- What the handlers do when they end: a client behind its bridge, and a device that goes.
use proxy_rfc.Base.{
  ℕ, ◌≡◌, refl, ap, ◌∙◌, true, false, Option, none, some, Bytes, bytes_eq_refl, arith,
}
use proxy_rfc.Conn.{Conn, write}
use proxy_rfc.Device.{get, clear_session, is_in_session}
use proxy_rfc.Modem.{ModemState, write_modem_no_carrier}
use proxy_rfc.Session.{Session, get_session}
use proxy_rfc.Session.Lifecycle.{IsManaged, end_session_lem}
use proxy_rfc.SyncMap.Laws.{IsMap}
use proxy_rfc.Handler.{
  World, parse_token, Client, client_check, session_cleanup, bridge_close, say_no_carrier,
  client_finish, device_exit, register_device,
}
use proxy_rfc.Handler.Registration.{register_device-live, register_device-IsMap}
use proxy_rfc.Device.Laws.{get-unregister}

closed_write : (m : ModemState) (c : Conn) → c.closed ≡ true → (write_modem_no_carrier m c).conn ≡ c
unfolding write_modem_no_carrier write
closed_write m c h = rw h

-- On a closed connection nothing is said, and the rest of the world is left alone in any case.
unheard :
    (o : Option ModemState) (w : World) (conn : ℕ)
    → (w.conns conn).closed ≡ true
    → ((say_no_carrier o w conn).conns conn ≡ w.conns conn)
      × ((say_no_carrier o w conn).manager ≡ w.manager)
      × ((say_no_carrier o w conn).devices ≡ w.devices)
      × ((say_no_carrier o w conn).registry ≡ w.registry)
unheard none w conn h = (refl, refl, refl, refl)
unheard (some m) w conn h = (ground (arith, closed_write m (w.conns conn) h), refl, refl, refl)

-- The client's connection as the bridge leaves it.
bridge_close-client :
    (w : World) (s : Session) (conn : ℕ)
    → conn ≡ s.client_conn
    → (((bridge_close w s).conns conn).closed ≡ true)
      × (((bridge_close w s).conns conn).sent ≡ (w.conns conn).sent)
unfolding bridge_close
bridge_close-client w s conn same = (ground arith, ground arith)

cleaned :
    (w : World) (s : Session) (ref : ℕ)
    → IsManaged w.manager
    → IsManaged (session_cleanup w s ref).manager
      × (get_session (session_cleanup w s ref).manager s.id ≡ none)
      × (is_in_session ((session_cleanup w s ref).devices ref) ≡ false)
      × (((session_cleanup w s ref).registry ≡ w.registry)
          × ((session_cleanup w s ref).conns ≡ w.conns))
unfolding session_cleanup is_in_session clear_session
cleaned w s ref v =
    let (managed, gone, _, _) = end_session_lem w.manager s.id v in
    (managed, gone s.id ∙ rw (bytes_eq_refl s.id), ground arith, (refl, refl))

bridge_close-kept :
    (w : World) (s : Session)
    → ((bridge_close w s).manager ≡ w.manager) × ((bridge_close w s).registry ≡ w.registry)
unfolding bridge_close
bridge_close-kept w s = (refl, refl)

-- Behind its bridge, with the sessions well formed before, a client's session is ended, its device
-- is free, and the client's connection is closed with nothing more sent on it: NO CARRIER of a
-- dialled session is never delivered.
pub client_finish_lem :
    (w : World) (c : Client) (s : Session) (ref : ℕ)
    → IsManaged w.manager
    → c.conn ≡ s.client_conn
    → let w' = client_finish (bridge_close w s) c s ref in
      IsManaged w'.manager
      × (get_session w'.manager s.id ≡ none)
      × (is_in_session (w'.devices ref) ≡ false)
      × (w'.registry ≡ w.registry)
      × ((w'.conns c.conn).closed ≡ true)
      × ((w'.conns c.conn).sent ≡ (w.conns c.conn).sent)
unfolding client_finish
client_finish_lem w c s ref v same =
    let (shut, still) = bridge_close-client w s c.conn same in
    let (managed, gone, free, (entries, conns)) =
      cleaned (bridge_close w s) s ref (rw (bridge_close-kept w s).0 v) in
    let (heard, m', d', r') =
      unheard c.modem (session_cleanup (bridge_close w s) s ref) c.conn (rw conns shut) in
    (
      rw m' managed,
      rw m' gone,
      rw d' free,
      r' ∙ entries ∙ (bridge_close-kept w s).1,
      rw (heard, conns) shut,
      rw (heard, conns) still,
    )

-- In a registry with distinct keys, a handler that ends after its device was registered anew takes
-- the new registration away with it: the identifier is not found and a client that names it is not
-- let through, though the new device is not stopped and its connection is open.
pub stale_exit :
    (auth : Bytes) (now : ℕ) (w : World) (conn : ℕ) (id : Bytes) (c : Client) {ref : ℕ}
    → IsMap w.registry
    → (register_device now w conn id).1 ≡ some ref
    → parse_token auth c.at_command.param ≡ some id
    → let w' = device_exit (register_device now w conn id).0 id in
      (get id w'.registry ≡ none)
      × ((w'.devices ref).stopped ≡ false)
      × ((w'.conns conn).closed ≡ false)
      × (client_check auth w' c ≡ none)
stale_exit auth now w conn id c h e p =
    let (device, is_open) = register_device-live now w conn id e in
    let after_exit : get id (device_exit (register_device now w conn id).0 id).registry ≡ none =
      unfold device_exit in
      (get-unregister id id _ (register_device-IsMap now w conn id h e) ∙ rw (bytes_eq_refl id)) in
    (
      after_exit,
      unfold device_exit in ap (λ d. d.stopped) device,
      unfold device_exit in is_open,
      unfold client_check in rw (p, after_exit),
    )
