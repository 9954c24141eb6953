-- ===== src/Bridge/HalfClosed.antt =====
-- When `Run` of bridge.go returns.
use proxy_rfc.Base.{ℕ, ◌≡◌, ap, ◌∙◌, true, false, List, [], ◌∷◌, All, Bool-cases, inl, inr, arith}
use proxy_rfc.Bridge.{
  Reading, Bridge, copy_reading, keep_device, keep_both, Event, client_reads, device_reads, ticks,
  wakes, returns, client_read, device_read, wake, apply, run,
}

-- The device's loop waits in a read, and `Run` has not gone on.
pub record IsWaiting (b : Bridge) : Type 0 where
  pub device_loop : b.outward.running ≡ true
  pub not_ended : b.ended ≡ false
  pub not_closing : b.closing ≡ false
  pub not_returned : b.returned ≡ false

-- No read from the device returns.
abbrev pub IsSilent : Event → Type 0
IsSilent (device_reads now r) = ⊥
IsSilent _ = Unit

keep_both-IsWaiting : (now : ℕ) (b : Bridge) → IsWaiting b → IsWaiting (keep_both now b)
unfolding keep_both keep_device
keep_both-IsWaiting now b v = record {
  device_loop = ground arith;
  not_ended = ground arith;
  not_closing = ground arith;
  not_returned = ground arith;
}

apply-IsWaiting : (b : Bridge) (e : Event) → IsSilent e → IsWaiting b → IsWaiting (apply b e)
unfolding apply client_read wake
apply-IsWaiting b (client_reads now r) h v = record {
  device_loop = ground arith;
  not_ended = ground arith;
  not_closing = ground arith;
  not_returned = ground arith;
}
apply-IsWaiting b (device_reads now r) h v = absurd h
apply-IsWaiting b (ticks now) h v = elim (Bool-cases b.keepalive) [
  | inl on ↦ simp on (keep_both-IsWaiting now b v)
  | inr off ↦ simp off v
]
apply-IsWaiting b wakes h v = record {
  device_loop = ground arith;
  not_ended = ground arith;
  not_closing = ground arith;
  not_returned = ground arith;
}
apply-IsWaiting b returns h v = record {
  device_loop = ground arith;
  not_ended = ground arith;
  not_closing = ground arith;
  not_returned = ground arith;
}

-- A bridge whose device loop waits in a read, whose session has not been ended and whose `Run` has
-- not gone on stays so while no read from the device returns, whatever else happens: a client that
-- disconnects, or a NOP that fails, leaves `Run` waiting.
pub run-IsWaiting :
    (b : Bridge) (es : List Event) → All IsSilent es → IsWaiting b → IsWaiting (run b es)
unfolding run
run-IsWaiting b [] h v = v
run-IsWaiting b (e ∷ es) h v = run-IsWaiting (apply b e) es h.1 (apply-IsWaiting b e h.0 v)

-- A read on a closed connection ends its loop and touches nothing else.
client_read-closed :
    (now : ℕ) (r : Reading) (b : Bridge)
    → b.client.closed ≡ true
    → ((client_read now r b).inward.running ≡ false)
      × ((client_read now r b).device ≡ b.device)
      × ((client_read now r b).outward ≡ b.outward)
unfolding client_read copy_reading
client_read-closed now r b h = (ground arith, ground arith, ground arith)

device_read-closed :
    (now : ℕ) (r : Reading) (b : Bridge)
    → b.device.closed ≡ true
    → ((device_read now r b).outward.running ≡ false) × ((device_read now r b).inward ≡ b.inward)
unfolding device_read copy_reading
device_read-closed now r b h = (ground arith, ground arith)

wake-returns :
    (b : Bridge)
    → b.inward.running ≡ false
    → b.outward.running ≡ false
    → (run b (wakes ∷ returns ∷ [])).returned ≡ true
unfolding run apply wake
wake-returns b hi ho = ground arith

-- Once both connections are closed, as `Terminate` leaves them, one read of each loop is enough:
-- `Run` then goes on and returns.
pub run_returns :
    (b : Bridge) (now now' : ℕ) (r r' : Reading)
    → b.client.closed ≡ true
    → b.device.closed ≡ true
    → (run b (client_reads now r ∷ device_reads now' r' ∷ wakes ∷ returns ∷ [])).returned ≡ true
unfolding run apply
run_returns b now now' r r' hc hd =
    let b1 = client_read now r b in
    let (stopped, same_device, _) = client_read-closed now r b hc in
    let (stopped', same_inward) =
      device_read-closed now' r' b1 (ap (λ c. c.closed) same_device ∙ hd) in
    wake-returns (device_read now' r' b1) (ap (λ f. f.running) same_inward ∙ stopped) stopped'
