-- ===== src/Worlds/Meeting.antt =====
-- A device and a client of internal/connection, from the device's registration to the end of the
-- data that its session's bridge reads.
use mathlib.Core.List.{append_assoc}
use proxy_rfc.Base.{
  ℕ, ◌≡◌, ◌≢◌, sym, ap, subst, ◌∙◌, Option, some, List, ◌++◌, Bytes, codes, IsBytes, is_positive,
}
use proxy_rfc.Bridge.{Event, run}
use proxy_rfc.Bridge.Delivery.{client_data}
use proxy_rfc.Bridge.Mirror.{device_data}
use proxy_rfc.Bridge.Padding.{Padded}
use proxy_rfc.Conn.{Conn, Stream, buffered}
use proxy_rfc.Conn.Open.{IsOpen}
use proxy_rfc.Dispatch.{to_client, handle}
use proxy_rfc.Handler.{World, parse_token, client_check, device_open, device_wait, client_open}
use proxy_rfc.Handler.Clients.{client_check_iff}
use proxy_rfc.Handler.Forwarding.{preset_bytes, late_bytes}
use proxy_rfc.Modem.{ModemState}
use proxy_rfc.Protocol.{AtCommand, read_plain_at_command}
use proxy_rfc.Protocol.LineBytes.{stream_bytes}
use proxy_rfc.Session.{Session}
use proxy_rfc.SyncMap.Laws.{IsMap}
use proxy_rfc.Worlds.{heard}
use proxy_rfc.Worlds.Arrival.{arrived, handle_passes}
use proxy_rfc.Worlds.Passage.{bridge_of, greeting}
use proxy_rfc.Worlds.Standing.{
  dial_answer, IsStanding, IsNew, register_device-IsStanding, device_wait-IsStanding,
}

device_open-IsStanding :
    (auth : Bytes) (now : ℕ) (w : World) (conn : ℕ) (token id : Bytes)
    → parse_token auth token ≡ some id
    → IsMap w.registry
    → IsNew w id conn
    → IsOpen (w.conns conn)
    → IsStanding
        (device_open auth now w conn token).0
        id
        w.next_ref
        conn
        ((w.conns conn).sent ++ codes "OK\r\n")
      × ((device_open auth now w conn token).0.manager ≡ w.manager)
unfolding device_open
device_open-IsStanding auth now w conn token id named h apart ready =
    rw named (register_device-IsStanding now w conn id h apart ready)

-- What the device is sent behind its registration's answers.
abbrev pub behind : AtCommand → Stream → Bytes → Bytes
behind c rest passed = preset_bytes c.usrvcom c.skipped ++ (late_bytes (buffered rest) ++ passed)

-- In a world whose registry has distinct keys a device registers and waits; then a client comes
-- whose command names it. The device's connection is a new one, open, and takes all writes, as does
-- the client's, and no other step comes between. Then the client gets a session on this device. The
-- device is sent, in this order: the OK of its registration, one more OK exactly if what it then
-- sends is read as ATDT or ATDP, what the client has sent around its command, where data with a
-- USR-VCOM packet at their head go as the packet's RFC 2217 frames alone, and what the session's
-- bridge reads from the client up to its first failing read; the client is sent, behind what it was
-- sent before, the answers of `Handle`, that it is connected, and what the bridge reads from the
-- device, likewise. What the bridge reads is passed on in order and without a change or a loss,
-- with NOPs between only where the idle timeout is positive, however the bridge's events come
-- between one another.
pub registered_passes :
    (auth : Bytes) (now now' now'' : ℕ) (w w' : World) (device_conn : ℕ) (token id : Bytes)
    (waited : ℕ → ℕ) (wait : Stream) (post_timeout init_timeout : ℕ) (since : ℕ → ℕ → ℕ)
    (s : Stream) (conn : ℕ) (c : AtCommand) (m : Option ModemState) (conn' : Conn) (rest : Stream)
    (es : List Event)
    → parse_token auth token ≡ some id
    → IsMap w.registry
    → IsNew w id device_conn
    → IsOpen (w.conns device_conn)
    → device_wait waited wait (device_open auth now w device_conn token).0 device_conn ≡ some w'
    → IsBytes (stream_bytes s)
    → handle post_timeout init_timeout since s (w'.conns conn) ≡ some (to_client c m conn', rest)
    → parse_token auth c.param ≡ some id
    → conn ≢ device_conn
    → IsOpen (w'.conns conn)
    → let opened = client_open auth now' (heard w' conn conn') (arrived conn c m rest) in
      (session : Session) × (said passed returned : Bytes) × (opened.1 ≡ some session)
      × (conn' ≡ record (w'.conns conn) { sent = (w'.conns conn).sent ++ said })
      × ((run (bridge_of now'' opened.0 session) es).device.sent
          ≡ ((w.conns device_conn).sent
              ++ (codes "OK\r\n" ++ dial_answer (read_plain_at_command waited wait)))
            ++ behind c rest passed)
      × ((run (bridge_of now'' opened.0 session) es).client.sent
          ≡ (w'.conns conn).sent ++ (said ++ (greeting m ++ returned)))
      × Padded (is_positive w.manager.idle_timeout) (client_data es) passed
      × Padded (is_positive w.manager.idle_timeout) (device_data es) returned
registered_passes auth now now' now'' w w' device_conn token id waited wait post_timeout
      init_timeout since s conn c m conn' rest es named h apart ready waits b handles calls other
      is_open =
    let (v, kept) = device_open-IsStanding auth now w device_conn token id named h apart ready in
    let (v', kept') = device_wait-IsStanding waited wait _ w' id w.next_ref device_conn _ v waits in
    let checks : client_check auth (heard w' conn conn') (arrived conn c m rest) ≡ some w.next_ref =
      (client_check_iff auth (heard w' conn conn') (arrived conn c m rest) w.next_ref).1
        (id, calls, v'.named, v'.is_free) in
    let own = v'.own_conn in
    let (session, said, passed, returned, opened, answered, inward, outward, padded, padded_back) =
      handle_passes post_timeout init_timeout since s auth now' now'' w' conn c m conn' rest
        w.next_ref es b handles checks (λ q. other (q ∙ own)) is_open
        (subst (λ k. IsOpen (w'.conns k)) (sym own) v'.open_conn) in
    let idle = ap (λ k. is_positive k.idle_timeout) (kept' ∙ kept) in
    (
      session,
      said,
      passed,
      returned,
      opened,
      answered,
      inward
          ∙ ap (λ k. (w'.conns k).sent ++ behind c rest passed) own
          ∙ ap (λ b'. b' ++ behind c rest passed)
              (v'.told ∙ append_assoc (w.conns device_conn).sent (codes "OK\r\n") _),
      outward,
      subst (λ k. Padded k (client_data es) passed) idle padded,
      subst (λ k. Padded k (device_data es) returned) idle padded_back,
    )
