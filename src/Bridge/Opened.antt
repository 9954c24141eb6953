-- ===== src/Bridge/Opened.antt =====
-- The events of a bridge of bridge.go between two open connections: what they send to each side.
use proxy_rfc.Base.{
  ℕ, ◌≡◌, refl, sym, subst, inl, inr, true, false, not, ◌&&◌, List, ◌∷◌, ◌++◌, Bool-cases,
}
use proxy_rfc.Conn.Open.{IsOpen}
use proxy_rfc.Bridge.{
  Reading, Flow, Bridge, Event, client_reads, device_reads, ticks, wakes, returns, both_done,
  copy_reading, client_read, device_read, wake, apply,
}
use proxy_rfc.Bridge.Delivery.{client_data, copy_fields}
use proxy_rfc.Bridge.Mirror.{device_data}
use proxy_rfc.Bridge.Keepalive.{ticks-open}
use proxy_rfc.Bridge.Padding.{gets, Pads, stays-Pads, nop_due-Pads, read-Pads}

-- Both connections are open and take all writes.
pub record IsOpened (b : Bridge) : Type 0 where
  pub not_ended : b.ended ≡ false
  pub client_opened : IsOpen b.client
  pub device_opened : IsOpen b.device

-- One event, with those to come.
abbrev pub BothPad : Bridge → Event → List Event → Type 0
BothPad b e es =
    Pads b.keepalive b.device (apply b e).device (gets b.inward.running (client_data (e ∷ es)))
      (gets (apply b e).inward.running (client_data es))
    × Pads b.keepalive b.client (apply b e).client (gets b.outward.running (device_data (e ∷ es)))
        (gets (apply b e).outward.running (device_data es))
    × ((apply b e).ended ≡ b.ended)
    × ((apply b e).keepalive ≡ b.keepalive)

client_read-open :
    (b : Bridge) (now : ℕ) (r : Reading)
    → IsOpened b
    → b.inward.running ≡ true
    → (f : Flow) × (apply b (client_reads now r)
        ≡ record b { device = record b.device { sent = b.device.sent ++ r.payload }; inward = f })
      × (f.running ≡ not r.fails)
unfolding apply client_read
client_read-open b now r v on =
    let (conn, _, running) = copy_fields now b.device b.inward r.payload r.fails v.device_opened in
    (
      (copy_reading now b.device b.inward r).flow,
      simp (on, v.client_opened.not_closed, conn),
      running,
    )

device_read-open :
    (b : Bridge) (now : ℕ) (r : Reading)
    → IsOpened b
    → b.outward.running ≡ true
    → (f : Flow) × (apply b (device_reads now r)
        ≡ record b { client = record b.client { sent = b.client.sent ++ r.payload }; outward = f })
      × (f.running ≡ not r.fails)
unfolding apply device_read
device_read-open b now r v on =
    let (conn, _, running) = copy_fields now b.client b.outward r.payload r.fails v.client_opened in
    (
      (copy_reading now b.client b.outward r).flow,
      simp (on, v.device_opened.not_closed, conn),
      running,
    )

pub client_reads-BothPad :
    (b : Bridge) (now : ℕ) (r : Reading) (es : List Event)
    → IsOpened b
    → BothPad b (client_reads now r) es
client_reads-BothPad b now r es v = elim (Bool-cases b.inward.running) [
  | inl on ↦
      let (f, e, running) = client_read-open b now r v on in
      rw e (
        subst
            (λ k.
              Pads b.keepalive b.device (record b.device { sent = b.device.sent ++ r.payload })
                (gets b.inward.running (client_data (client_reads now r ∷ es)))
                (gets k (client_data es)))
            (sym running)
            (rw on (read-Pads b.keepalive b.device r.payload r.fails (client_data es))),
        stays-Pads b.keepalive b.client _,
        refl,
        refl,
      )
  | inr off ↦
      unfold apply in
      unfold client_read in
      simp off (stays-Pads b.keepalive b.device _, stays-Pads b.keepalive b.client _, refl, refl)
]

pub device_reads-BothPad :
    (b : Bridge) (now : ℕ) (r : Reading) (es : List Event)
    → IsOpened b
    → BothPad b (device_reads now r) es
device_reads-BothPad b now r es v = elim (Bool-cases b.outward.running) [
  | inl on ↦
      let (f, e, running) = device_read-open b now r v on in
      rw e (
        stays-Pads b.keepalive b.device _,
        subst
            (λ k.
              Pads b.keepalive b.client (record b.client { sent = b.client.sent ++ r.payload })
                (gets b.outward.running (device_data (device_reads now r ∷ es)))
                (gets k (device_data es)))
            (sym running)
            (rw on (read-Pads b.keepalive b.client r.payload r.fails (device_data es))),
        refl,
        refl,
      )
  | inr off ↦
      unfold apply in
      unfold device_read in
      simp off (stays-Pads b.keepalive b.device _, stays-Pads b.keepalive b.client _, refl, refl)
]

pub ticks-BothPad : (b : Bridge) (now : ℕ) (es : List Event) → IsOpened b → BothPad b (ticks now) es
ticks-BothPad b now es v = elim (Bool-cases b.keepalive) [
  | inl on ↦ rw (ticks-open b now on v.client_opened v.device_opened) (
    rw on (nop_due-Pads b.idle_timeout now b.outward b.device _),
    rw on (nop_due-Pads b.idle_timeout now b.inward b.client _),
    refl,
    sym on,
  )
  | inr off ↦
      unfold apply in
      simp off (stays-Pads false b.device _, stays-Pads false b.client _, refl, refl)
]

pub wakes-BothPad :
    (b : Bridge) (es : List Event) → both_done b ≡ false → IsOpened b → BothPad b wakes es
unfolding apply wake
wakes-BothPad b es more v =
    simp (more, v.not_ended)
      (stays-Pads b.keepalive b.device _, stays-Pads b.keepalive b.client _, refl, refl)

pub returns-BothPad : (b : Bridge) (es : List Event) → BothPad b returns es
unfolding apply
returns-BothPad b es = elim (Bool-cases (b.closing && both_done b)) [
  | inl on ↦
      rw on (stays-Pads b.keepalive b.device _, stays-Pads b.keepalive b.client _, refl, refl)
  | inr off ↦
      rw off (stays-Pads b.keepalive b.device _, stays-Pads b.keepalive b.client _, refl, refl)
]
