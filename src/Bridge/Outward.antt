-- ===== src/Bridge/Outward.antt =====
-- The device's direction of a bridge, event by event, with its keepalive off.
use proxy_rfc.Base.{ℕ, ◌≡◌, ap, ◌∙◌, sym, subst, true, false, not, ◌++◌}
use proxy_rfc.Bridge.{Bridge, Event, Reading, device_read, client_read, apply}
use proxy_rfc.Bridge.Delivery.{
  IsFlowing, IsOther, apply-IsFlowing, client_read-sent, reads-IsFlowing,
}
use proxy_rfc.Bridge.Done.{IsDone, apply-IsDone}
use proxy_rfc.Bridge.Mirror.{mirror, mirror_event, read-mirror, apply-mirror}

-- Events other than the device's reads send the client nothing.
pub apply-IsFlowing_outward :
    (b : Bridge) (e : Event)
    → IsOther (mirror_event e)
    → IsFlowing (mirror b)
    → IsFlowing (mirror (apply b e)) × ((apply b e).client ≡ b.client)
apply-IsFlowing_outward b e q v =
    let same = apply-mirror b e v.no_keepalive in
    let (v', d, _) = apply-IsFlowing (mirror b) (mirror_event e) q v in
    (subst IsFlowing same v', ap (λ b'. b'.device) (sym same) ∙ d)

-- Where the device's loop has ended nothing does.
pub apply-IsDone_outward :
    (b : Bridge) (e : Event)
    → IsDone (mirror b)
    → IsDone (mirror (apply b e)) × ((apply b e).client.sent ≡ b.client.sent)
apply-IsDone_outward b e v =
    let same = apply-mirror b e v.no_keepalive in
    let (v', d, _) = apply-IsDone (mirror b) (mirror_event e) v in
    (subst IsDone same v', ap (λ b'. b'.device.sent) (sym same) ∙ d)

read_same :
    (now : ℕ) (r : Reading) (b : Bridge)
    → client_read now r (mirror b) ≡ mirror (device_read now r b)
read_same now r b = sym (ap mirror (read-mirror now r (mirror b)))

-- A read that succeeds is passed on.
pub device_read-sent :
    (now : ℕ) (r : Reading) (b : Bridge)
    → r.fails ≡ false
    → IsFlowing (mirror b)
    → IsFlowing (mirror (device_read now r b))
      × ((device_read now r b).client.sent ≡ b.client.sent ++ r.payload)
device_read-sent now r b more v =
    let same = read_same now r b in
    let (sent, _, _, _) = client_read-sent now r (mirror b) v in
    (
      subst IsFlowing same (reads-IsFlowing now r (mirror b) v more),
      ap (λ b'. b'.device.sent) (sym same) ∙ ap (λ c. c.sent) sent,
    )

-- A read that fails ends the loop.
pub device_read-IsDone :
    (now : ℕ) (r : Reading) (b : Bridge)
    → r.fails ≡ true
    → IsFlowing (mirror b)
    → IsDone (mirror (device_read now r b))
      × ((device_read now r b).client.sent ≡ b.client.sent ++ r.payload)
device_read-IsDone now r b fails v =
    let same = read_same now r b in
    let (sent, _, running, (off, _, _)) = client_read-sent now r (mirror b) v in
    (
      subst IsDone same (record { no_keepalive = off; done_loop = running ∙ ap not fails }),
      ap (λ b'. b'.device.sent) (sym same) ∙ ap (λ c. c.sent) sent,
    )
