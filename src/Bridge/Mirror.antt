-- ===== src/Bridge/Mirror.antt =====
-- The bridge of bridge.go seen from its other side.
use proxy_rfc.Base.{
  ℕ, ◌+◌, ◌%◌, ◌^◌, ◌≡◌, refl, sym, ap, ◌∙◌, Bool, false, not, ◌&&◌, ◌||◌, List, [], ◌∷◌, ◌++◌,
  Bytes, length, map, if◌then◌else◌, Bool-cases, inl, inr, arith,
}
use proxy_rfc.Bridge.{
  Reading, Bridge, Event, client_reads, device_reads, ticks, wakes, returns, both_done, client_read,
  device_read, wake, apply, run,
}
use proxy_rfc.Bridge.Delivery.{IsFlowing, client_data, run-Delivers}

abbrev pub mirror : Bridge → Bridge
mirror b = record b { client = b.device; device = b.client; inward = b.outward; outward = b.inward }

abbrev pub mirror_event : Event → Event
mirror_event (client_reads now r) = device_reads now r
mirror_event (device_reads now r) = client_reads now r
mirror_event (ticks now) = ticks now
mirror_event wakes = wakes
mirror_event returns = returns

-- The bytes read from the device, up to the first read that fails.
abbrev pub device_data : List Event → Bytes
device_data [] = []
device_data (device_reads now r ∷ es) = if r.fails then r.payload else r.payload ++ device_data es
device_data (_ ∷ es) = device_data es

client_data-mirror : (es : List Event) → client_data (map mirror_event es) ≡ device_data es
client_data-mirror [] = refl
client_data-mirror (client_reads now r ∷ es) = client_data-mirror es
client_data-mirror (device_reads now r ∷ es) =
    ap (λ d. if r.fails then r.payload else r.payload ++ d) (client_data-mirror es)
client_data-mirror (ticks now ∷ es) = client_data-mirror es
client_data-mirror (wakes ∷ es) = client_data-mirror es
client_data-mirror (returns ∷ es) = client_data-mirror es

pub read-mirror :
    (now : ℕ) (r : Reading) (b : Bridge)
    → device_read now r (mirror b) ≡ mirror (client_read now r b)
unfolding client_read device_read
read-mirror now r b = elim (Bool-cases b.inward.running) [ inl on ↦ simp on | inr off ↦ simp off ]

and_comm : (x y : Bool) → (not x && not y) ≡ (not y && not x)
and_comm x y = ground arith

wake-mirror : (b : Bridge) → wake (mirror b) ≡ mirror (wake b)
unfolding wake
wake-mirror b =
    rw (and_comm b.outward.running b.inward.running)
      (elim (Bool-cases (both_done b || b.ended)) [ inl on ↦ rw on refl | inr off ↦ rw off refl ])

returns-mirror : (b : Bridge) → apply (mirror b) returns ≡ mirror (apply b returns)
unfolding apply
returns-mirror b =
    rw (and_comm b.outward.running b.inward.running)
      (elim (Bool-cases (b.closing && both_done b)) [ inl on ↦ rw on refl | inr off ↦ rw off refl ])

pub apply-mirror :
    (b : Bridge) (e : Event)
    → b.keepalive ≡ false
    → apply (mirror b) (mirror_event e) ≡ mirror (apply b e)
apply-mirror b (client_reads now r) off = unfold apply in read-mirror now r b
apply-mirror b (device_reads now r) off =
    unfold apply in ap mirror (sym (read-mirror now r (mirror b)))
apply-mirror b (ticks now) off = unfold apply in simp off
apply-mirror b wakes off = unfold apply in wake-mirror b
apply-mirror b returns off = returns-mirror b

apply-keepalive : (b : Bridge) (e : Event) → b.keepalive ≡ false → (apply b e).keepalive ≡ false
unfolding apply client_read device_read wake
apply-keepalive b (client_reads now r) off = ground arith
apply-keepalive b (device_reads now r) off = ground arith
apply-keepalive b (ticks now) off = ground arith
apply-keepalive b wakes off = ground arith
apply-keepalive b returns off = ground arith

run-mirror :
    (b : Bridge) (es : List Event)
    → b.keepalive ≡ false
    → run (mirror b) (map mirror_event es) ≡ mirror (run b es)
unfolding run
run-mirror b [] off = refl
run-mirror b (e ∷ es) off =
    ap (λ b'. run b' (map mirror_event es)) (apply-mirror b e off)
    ∙ run-mirror (apply b e) es (apply-keepalive b e off)

-- The same for the other direction: with the keepalive off, the session not ended, the device's
-- loop running on an open connection, and a client connection whose writes succeed, the client is
-- sent exactly the bytes read from the device, in order, up to the device's first failing read,
-- however the other events come between; and the counter BytesOut grows by their number, modulo 2 ^
-- 64.
pub run_outward :
    (b : Bridge) (es : List Event)
    → IsFlowing (mirror b)
    → ((run b es).client.sent ≡ b.client.sent ++ device_data es)
      × ((run b es).outward.counter % 2 ^ 64
          ≡ (b.outward.counter + length (device_data es)) % 2 ^ 64)
run_outward b es v =
    let same = run-mirror b es v.no_keepalive in
    let (sent, counter) = run-Delivers (mirror b) (map mirror_event es) v in
    rw (← client_data-mirror es) (
      ap (λ b'. b'.device.sent) (sym same) ∙ sent,
      ap (λ b'. b'.inward.counter % 2 ^ 64) (sym same) ∙ counter,
    )
