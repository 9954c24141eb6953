-- ===== src/Worlds/Arrival.antt =====
-- A client from the first byte of its connection on: the commands that `Handle` of
-- internal/connection reads, the check, and the session with its bridge.
use mathlib.Core.List.{append_assoc}
use proxy_rfc.Base.{
  ℕ, ◌≡◌, ◌≢◌, ap, ◌∙◌, Option, none, some, List, [], ◌∷◌, ◌++◌, Bytes, IsBytes, is_positive, arith,
}
use proxy_rfc.Bridge.{Event, run}
use proxy_rfc.Bridge.Delivery.{client_data}
use proxy_rfc.Bridge.Mirror.{device_data}
use proxy_rfc.Bridge.Padding.{Padded}
use proxy_rfc.Conn.{Conn, Stream, byte, edge, pause, buffered}
use proxy_rfc.Conn.Open.{IsOpen}
use proxy_rfc.Dispatch.{to_client, handle}
use proxy_rfc.Dispatch.Said.{handle-Says, Says-IsOpen}
use proxy_rfc.Dispatch.Rounds.{handle-IsClient}
use proxy_rfc.Handler.{World, Client, client_check, client_open}
use proxy_rfc.Handler.Forwarding.{preset_bytes, late_bytes, IsValidPreset}
use proxy_rfc.Modem.{ModemState}
use proxy_rfc.Protocol.{AtCommand}
use proxy_rfc.Protocol.LineBytes.{stream_bytes}
use proxy_rfc.Protocol.Results.{IsPreset}
use proxy_rfc.Session.{Session}
use proxy_rfc.Usrvcom.{UsrVcomConfig}
use proxy_rfc.Worlds.{heard}
use proxy_rfc.Worlds.Passage.{bridge_of, greeting, client_open_passes}

-- The client that `Handle` hands over.
abbrev pub arrived : ℕ → AtCommand → Option ModemState → Stream → Client
arrived conn c m rest = record { conn = conn; modem = m; at_command = c; unread = rest }

IsPreset-IsValidPreset : (o : Option UsrVcomConfig) → IsPreset o → IsValidPreset o
IsPreset-IsValidPreset none h = tt
IsPreset-IsValidPreset (some c) h = h.is_valid

buffered-IsBytes : (s : Stream) → IsBytes (stream_bytes s) → IsBytes (buffered s)
unfolding buffered
buffered-IsBytes [] h = tt
buffered-IsBytes (byte b ∷ s) h = (h.0, buffered-IsBytes s h.1)
buffered-IsBytes (edge ∷ s) h = tt
buffered-IsBytes (pause ∷ s) h = tt

heard-own : (w : World) (conn : ℕ) (conn' : Conn) → (heard w conn conn').conns conn ≡ conn'
heard-own w conn conn' = ground arith

heard-other :
    (w : World) (conn : ℕ) (conn' : Conn) (r : ℕ)
    → conn ≢ r
    → (heard w conn conn').conns r ≡ w.conns r
heard-other w conn conn' r apart = ground arith

-- From a client's first byte on: where its connection and its device's are two open ones that take
-- all writes, `Handle` reads the client's command from a stream of bytes, and the client passes the
-- check, it gets a session. Through the session's bridge the device is sent, behind what was sent
-- before, the data that `Handle` kept from before the command, those read with it, and then what
-- the bridge reads from the client up to its first failing read; and the client is sent, behind
-- what it was sent before, what `Handle` has answered, one text that it is connected, and then what
-- the bridge reads from the device, however the bridge's events come between one another. Both are
-- passed on in order, without a change or a loss; only where the idle timeout is positive can NOPs
-- of the keepalive come between. A USR-VCOM packet at the head of the data around the command goes
-- as its RFC 2217 frames, in place of the data it came with.
pub handle_passes :
    (post_timeout init_timeout : ℕ) (since : ℕ → ℕ → ℕ) (s : Stream) (auth : Bytes) (now now' : ℕ)
    (w : World) (conn : ℕ) (c : AtCommand) (m : Option ModemState) (conn' : Conn) (rest : Stream)
    (ref : ℕ) (es : List Event)
    → IsBytes (stream_bytes s)
    → handle post_timeout init_timeout since s (w.conns conn) ≡ some (to_client c m conn', rest)
    → client_check auth (heard w conn conn') (arrived conn c m rest) ≡ some ref
    → conn ≢ (w.devices ref).conn
    → IsOpen (w.conns conn)
    → IsOpen (w.conns (w.devices ref).conn)
    → let opened = client_open auth now (heard w conn conn') (arrived conn c m rest) in
      (session : Session) × (said passed returned : Bytes) × (opened.1 ≡ some session)
      × (conn' ≡ record (w.conns conn) { sent = (w.conns conn).sent ++ said })
      × ((run (bridge_of now' opened.0 session) es).device.sent
          ≡ (w.conns (w.devices ref).conn).sent
            ++ (preset_bytes c.usrvcom c.skipped ++ (late_bytes (buffered rest) ++ passed)))
      × ((run (bridge_of now' opened.0 session) es).client.sent
          ≡ (w.conns conn).sent ++ (said ++ (greeting m ++ returned)))
      × Padded (is_positive w.manager.idle_timeout) (client_data es) passed
      × Padded (is_positive w.manager.idle_timeout) (device_data es) returned
handle_passes post_timeout init_timeout since s auth now now' w conn c m conn' rest ref es b h e
      apart ready device_ready =
    let ((_, skipped, preset), left) =
      handle-IsClient post_timeout since init_timeout s (w.conns conn) b h in
    let (said, answered) = handle-Says post_timeout init_timeout since s (w.conns conn) h ready in
    let is_open = Says-IsOpen (w.conns conn) conn' (said, answered) ready in
    let own = heard-own w conn conn' in
    let other = heard-other w conn conn' (w.devices ref).conn apart in
    let (session, passed, returned, opened, inward, outward, padded, padded_back) =
      client_open_passes auth now now' (heard w conn conn') (arrived conn c m rest) ref es e apart
        (rw own is_open) (rw other device_ready) skipped (buffered-IsBytes rest left)
        (IsPreset-IsValidPreset c.usrvcom preset) in
    (
      session,
      said,
      passed,
      returned,
      opened,
      answered,
      inward
          ∙ ap
              (λ k.
                k.sent
                ++ (preset_bytes c.usrvcom c.skipped ++ (late_bytes (buffered rest) ++ passed)))
              other,
      outward
          ∙ ap (λ k. k.sent ++ (greeting m ++ returned)) own
          ∙ ap (λ k. k.sent ++ (greeting m ++ returned)) answered
          ∙ append_assoc (w.conns conn).sent said (greeting m ++ returned),
      padded,
      padded_back,
    )
